-- ===== src/Adapter/Search.antt =====
-- The search for a device does not depend on logins, uploads, scripts and the reboot.
use ccc_upgrade.Base.{ℕ, ◌≡◌, refl, inl, inr, Bool, Option, List, [], ◌∷◌, Option-cases}
use ccc_upgrade.Base.Bytes.{Bytes, Run, Run-cases}
use ccc_upgrade.Base.Int.{ℤ}
use ccc_upgrade.Services.{Interface, Services}
use ccc_upgrade.Answers.{send_ip, send_interfaces, send_interface, send_one_ip, send_reply}

-- The same services, but for the login, the upload of files, the scripts and the reboot.
abbrev pub with_others :
    {W : Type 0}
    → (ℤ → W → Run (Bool × W))
    → (Option Bytes → Bytes → W → Run (Bool × W))
    → (ℤ → Bytes → W → Run (Bool × W))
    → (Bytes → W → Run (Bool × W))
    → (Option Bytes → Bytes → W → Run (ℕ × W))
    → (W → Run W)
    → Services W
    → Services W
with_others login open_file write finish execute reboot s = record s {
  network_manager_client_set_login = login;
  file_upload_open = open_file;
  file_upload_write = write;
  file_upload_single_finish = finish;
  file_execute_script = execute;
  reboot_device = reboot;
}

module _ {W : Type 0} (login : ℤ → W → Run (Bool × W))
    (open_file : Option Bytes → Bytes → W → Run (Bool × W)) (write : ℤ → Bytes → W → Run (Bool × W))
    (finish : Bytes → W → Run (Bool × W)) (execute : Option Bytes → Bytes → W → Run (ℕ × W))
    (reboot : W → Run W) (s : Services W) where
  send_interface-with_others :
      (handle : ℤ) (hostname : Bytes) (ifa : Interface) (w : W)
      → send_interface
          (with_others login open_file write finish execute reboot s)
          handle
          hostname
          ifa
          w
        ≡ send_interface s handle hostname ifa w
  unfolding send_interface send_one_ip send_reply
  send_interface-with_others handle hostname ifa w = refl

  send_interfaces-with_others :
      (handle : ℤ) (hostname : Bytes) (list : List Interface) (w : W)
      → send_interfaces
          (with_others login open_file write finish execute reboot s)
          handle
          hostname
          list
          w
        ≡ send_interfaces s handle hostname list w
  unfolding send_interfaces
  send_interfaces-with_others handle hostname [] w = refl
  send_interfaces-with_others handle hostname (ifa ∷ list) w =
      rw (send_interface-with_others handle hostname ifa w)
        (elim (Run-cases (send_interface s handle hostname ifa w)) [
          | inl e ↦ rw e
          | inr (w', e) ↦ rw e (send_interfaces-with_others handle hostname list w')
        ])

  pub send_ip-with_others :
      (handle : ℤ) (w : W)
      → send_ip (with_others login open_file write finish execute reboot s) handle w
        ≡ send_ip s handle w
  unfolding send_ip
  send_ip-with_others handle w = elim (Option-cases (s.getifaddrs w).0) [
    | inl e ↦ rw (e, send_ip)
    | inr (list, e) ↦ elim (Option-cases (s.gethostname (s.getifaddrs w).1).0) [
      | inl e' ↦ rw (e, e', send_ip)
      | inr (hostname, e') ↦
          rw
            (
              send_ip,
              e,
              e',
              send_interfaces-with_others handle hostname list (s.gethostname (s.getifaddrs w).1).1,
            )
            refl
    ]
  ]
