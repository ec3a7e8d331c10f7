-- ===== src/Adapter/Stream/Password.antt =====
-- A packet that does not hold the password is handled the same whatever a login does.
pub mod Data
use ccc_upgrade.Base.{
  ℕ, ◌+◌, ◌≡◌, refl, ap, inl, inr, Bool, false, Option, none, some, [], ◌∷◌, ◌++◌, ◌==◌, ==_iff,
  Bool-cases,
}
use ccc_upgrade.Base.Bytes.{Bytes, Run, ok, ◌>>=◌, load, c_string, >>=-eq-ok, Run-cases}
use ccc_upgrade.Base.Int.{ℤ, pos, ltb_ℤ}
use ccc_upgrade.Configure.{password, check_login}
use ccc_upgrade.Protocol.{Pdu}
use ccc_upgrade.Protocol.Frame.{frame}
use ccc_upgrade.Adapter.Search.{send_ip-with_others}
use ccc_upgrade.Services.{Services}
use ccc_upgrade.Answers.{send_ip, send_reply, send_reply_to_client}
use ccc_upgrade.Adapter.{
  status, process_protocol_pdu, process_protocol_discover_device, process_protocol_client_login,
  process_protocol_pdu_after_login, process_protocol_upgrade, process_protocol_upgrade_cmd_ex_01,
  process_protocol_upgrade_cmd_ex_02, process_protocol_upload_file,
  process_protocol_upload_file_cmd_ex_01, process_protocol_upload_file_cmd_ex_02,
  process_protocol_upload_file_cmd_ex_03, process_protocol_upload_file_cmd_ex_04,
  process_protocol_upload_file_cmd_ex_05, copy_string, try_login,
}

-- Somewhere in the bytes there is a login whose text, up to the first NUL, is the password.
abbrev pub HoldsPassword : Bytes → Type 0
HoldsPassword bytes =
    (front : Bytes) × (cmd_ex : ℕ) × (text : Bytes) × (back : Bytes) × (bytes
      ≡ front ++ (frame 0xE1 cmd_ex text ++ back))
    × (c_string text ≡ password)

-- A text for a login is not the password.
abbrev pub IsWrong : Pdu → Type 0
IsWrong pdu =
    (n : ℕ) × (pdu.data_len ≡ pos n)
    × ((block bytes : Bytes)
        → pdu.block ≡ some block
        → load n block ≡ ok bytes
        → check_login (c_string bytes) ≡ false)

-- The same services, but for the login.
abbrev pub with_login : {W : Type 0} → (ℤ → W → Run (Bool × W)) → Services W → Services W
with_login login s = record s { network_manager_client_set_login = login }

module _ {W : Type 0} (login : ℤ → W → Run (Bool × W)) (s : Services W) (dir : Option Bytes) where
  copy_string-with_login :
      (skip n : ℕ) (block : Option Bytes) (w : W)
      → copy_string (with_login login s) skip n block w ≡ copy_string s skip n block w
  unfolding copy_string
  copy_string-with_login skip n block w = refl

  copied :
      (n : ℕ) (block : Option Bytes) (w : W) {w' : W} {text : Bytes}
      → copy_string s 0 n block w ≡ ok (text, w')
      → (data_ bytes : Bytes) × (block ≡ some data_)
        × (load n data_ ≡ ok bytes)
        × (text ≡ c_string bytes)
  unfolding copy_string
  copied n none w e = elim (Bool-cases (s.malloc (n + 1) w).0) [
    | inl got ↦ cc (rw (copy_string, got) at e)
    | inr got ↦ cc (rw (copy_string, got) at e)
  ]
  copied n (some data_) w e = elim (Bool-cases (s.malloc (n + 1) w).0) [
    | inl got ↦
        let (bytes, l, same) = >>=-eq-ok (load n data_) _ (rw (copy_string, got) at e) in
        (data_, bytes, refl, l, cc same)
    | inr got ↦ cc (rw (copy_string, got) at e)
  ]

  try_login-with_login :
      (handle : ℤ) (pdu : Pdu) (w : W)
      → IsWrong pdu
      → try_login (with_login login s) handle pdu w ≡ try_login s handle pdu w
  try_login-with_login handle pdu w (n, el, wrong) = elim (Bool-cases (ltb_ℤ (pos 1) (pos n))) [
    | inr short ↦ rw (el, short)
    | inl long ↦ elim (Run-cases (copy_string s 0 n pdu.block w)) [
      | inl e ↦ rw (el, long, copy_string-with_login 0 n pdu.block w, e)
      | inr ((text, w'), e) ↦
          let (data_, bytes, eb, eload, et) = copied n pdu.block w e in
          rw (el, long, copy_string-with_login 0 n pdu.block w, e, et, wrong data_ bytes eb eload)
    ]
  ]

  process_protocol_client_login-with_login :
      (handle : ℤ) (pdu : Pdu) (w : W)
      → IsWrong pdu
      → process_protocol_client_login (with_login login s) handle pdu w
        ≡ process_protocol_client_login s handle pdu w
  unfolding process_protocol_client_login send_reply
  process_protocol_client_login-with_login handle pdu w wrong =
      ap (λ r. r >>= λ x. send_reply_to_client s handle 0xE1 1 (status x.0 ∷ []) x.1)
        (try_login-with_login handle pdu w wrong)

  after_login-with_login :
      (handle : ℤ) (pdu : Pdu) (w : W)
      → process_protocol_pdu_after_login (with_login login s) dir handle pdu w
        ≡ process_protocol_pdu_after_login s dir handle pdu w
  unfolding process_protocol_pdu_after_login process_protocol_upload_file
      process_protocol_upload_file_cmd_ex_01 process_protocol_upload_file_cmd_ex_02
      process_protocol_upload_file_cmd_ex_03 process_protocol_upload_file_cmd_ex_04
      process_protocol_upload_file_cmd_ex_05 process_protocol_upgrade
      process_protocol_upgrade_cmd_ex_01 process_protocol_upgrade_cmd_ex_02 copy_string send_reply
  after_login-with_login handle pdu w = refl

  send_ip-with_login :
      (handle : ℤ) (w : W) → send_ip (with_login login s) handle w ≡ send_ip s handle w
  send_ip-with_login =
      send_ip-with_others login s.file_upload_open s.file_upload_write s.file_upload_single_finish
        s.file_execute_script s.reboot_device s

  pub process_protocol_pdu-with_login :
      (handle : ℤ) (pdu : Pdu) (b_login : Bool) (w : W)
      → (pdu.cmd ≡ 0xE1 → IsWrong pdu)
      → process_protocol_pdu (with_login login s) dir handle pdu b_login w
        ≡ process_protocol_pdu s dir handle pdu b_login w
  unfolding process_protocol_pdu process_protocol_discover_device
  process_protocol_pdu-with_login handle pdu b_login w wrong = elim (Bool-cases (pdu.cmd == 0xE1)) [
    | inl is ↦
        rw
          (
            send_ip-with_login handle w,
            process_protocol_client_login-with_login handle pdu w
                (wrong ((==_iff pdu.cmd 0xE1).0 is)),
            after_login-with_login handle pdu w,
          )
          refl
    | inr is ↦ rw (is, send_ip-with_login handle w, after_login-with_login handle pdu w) refl
  ]
