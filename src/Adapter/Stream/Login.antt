-- ===== src/Adapter/Stream/Login.antt =====
-- What a client that is not logged in can make the program do.
use ccc_upgrade.Base.{
  if◌then◌else◌, ℕ, zero, suc, ◌≡◌, refl, inl, inr, Bool, false, Option, [], ◌∷◌, ◌==◌, Bool-cases,
  Option-cases, length, drop, ap,
}
use ccc_upgrade.Base.Bytes.{◌>>=◌, Bytes, Run, Run-cases, ok}
use ccc_upgrade.Base.Int.{ℤ, pos}
use ccc_upgrade.Protocol.{Pdu, parse_packet2}
use ccc_upgrade.Services.{Services}
use ccc_upgrade.Answers.{send_reply}
use ccc_upgrade.Adapter.{
  process_protocol_pdu, process_protocol_discover_device, process_protocol_client_login,
  copy_string,
}
use ccc_upgrade.Adapter.Search.{send_ip-with_others}
use ccc_upgrade.Adapter.Stream.{handle_enabled, process_loop, protocol_adapter_process_data}

-- The same services, but for the upload of files, the scripts and the reboot.
abbrev pub with_files :
    {W : Type 0}
    → (Option Bytes → Bytes → W → Run (Bool × W))
    → (ℤ → Bytes → W → Run (Bool × W))
    → (Bytes → W → Run (Bool × W))
    → (Option Bytes → Bytes → W → Run (ℕ × W))
    → (W → Run W)
    → Services W
    → Services W
with_files open_file write finish execute reboot s = record s {
  file_upload_open = open_file;
  file_upload_write = write;
  file_upload_single_finish = finish;
  file_execute_script = execute;
  reboot_device = reboot;
}

module _ {W : Type 0} (open_file : Option Bytes → Bytes → W → Run (Bool × W))
    (write : ℤ → Bytes → W → Run (Bool × W)) (finish : Bytes → W → Run (Bool × W))
    (execute : Option Bytes → Bytes → W → Run (ℕ × W)) (reboot : W → Run W) (s : Services W)
    (dir : Option Bytes) where
  process_protocol_client_login-with_files :
      (handle : ℤ) (pdu : Pdu) (w : W)
      → process_protocol_client_login
          (with_files open_file write finish execute reboot s)
          handle
          pdu
          w
        ≡ process_protocol_client_login s handle pdu w
  unfolding process_protocol_client_login copy_string send_reply
  process_protocol_client_login-with_files handle pdu w = refl

  process_protocol_pdu-with_files :
      (handle : ℤ) (pdu : Pdu) (w : W)
      → process_protocol_pdu
          (with_files open_file write finish execute reboot s)
          dir
          handle
          pdu
          false
          w
        ≡ process_protocol_pdu s dir handle pdu false w
  unfolding process_protocol_pdu process_protocol_discover_device
  process_protocol_pdu-with_files handle pdu w =
      rw
        (
          send_ip-with_others s.network_manager_client_set_login open_file write finish execute
              reboot s handle w,
          process_protocol_client_login-with_files handle pdu w,
        )
        refl

  handle_enabled-with_files :
      (handle : ℤ) (pdu : Pdu) (w : W)
      → handle_enabled (with_files open_file write finish execute reboot s) dir handle pdu false w
        ≡ handle_enabled s dir handle pdu false w
  unfolding handle_enabled
  handle_enabled-with_files handle pdu w =
      ap (λ r. if pdu.b_enable then (r >>= λ x. ok x.1) else ok w)
        (process_protocol_pdu-with_files handle pdu w)

  process_loop-with_files :
      (fuel : ℕ) (handle : ℤ) (left : Bytes) (pdu : Pdu) (w : W)
      → process_loop
          (with_files open_file write finish execute reboot s)
          dir
          fuel
          handle
          left
          false
          pdu
          w
        ≡ process_loop s dir fuel handle left false pdu w
  unfolding process_loop
  process_loop-with_files zero handle left pdu w = refl
  process_loop-with_files (suc fuel) handle [] pdu w = refl
  process_loop-with_files (suc fuel) handle (b ∷ bs) pdu w =
      elim (Run-cases (parse_packet2 (b ∷ bs) (record pdu { b_enable = false }))) [
        | inl e ↦ rw e
        | inr ((len, pdu'), e) ↦ elim (Bool-cases (len == 0)) [
          | inl z ↦ rw (e, z)
          | inr z ↦
              rw (e, z, handle_enabled-with_files handle pdu' w)
                (elim (Run-cases (handle_enabled s dir handle pdu' false w)) [
                  | inl f ↦ rw f
                  | inr (w', f) ↦
                      rw (f, process_loop-with_files fuel handle (drop len (b ∷ bs)) pdu' w') refl
                ])
        ]
      ]

  -- Bytes that come from a client that is not logged in are handled the same whatever the upload of
  -- files, the scripts and the reboot do: the call returns the same and leaves the program in the
  -- same state, for any bytes at all. So none of these is ever used for such a client, even if it
  -- logs in by these very bytes.
  pub process_data-not_logged_in :
      (handle : ℤ) (buffer : Bytes) (w : W)
      → protocol_adapter_process_data
          (with_files open_file write finish execute reboot s)
          dir
          handle
          buffer
          false
          w
        ≡ protocol_adapter_process_data s dir handle buffer false w
  unfolding protocol_adapter_process_data
  process_data-not_logged_in handle buffer w =
      elim (Run-cases (s.packet_pool_get_pdu_buf (pos 4096) w)) [
        | inl e ↦ rw e
        | inr ((packet, w'), e) ↦ elim (Option-cases packet) [
          | inl n ↦ rw (e, n)
          | inr (p, n) ↦
              rw (e, n, process_loop-with_files (length buffer) handle buffer p.un_pdu w') refl
        ]
      ]
