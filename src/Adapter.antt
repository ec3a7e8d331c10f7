-- ===== src/Adapter.antt =====
-- src/protocol_adapter/protocol_adapter.c: the commands of a packet, and the packets of a stream.
-- `Services` is what the adapter calls of the other parts, each a step on the program's state `W`.
pub mod Stream
pub mod Reply
pub mod Upload
pub mod Search
pub mod Keeps
mod Tests
use ccc_upgrade.Base.{
  ℕ, ◌+◌, ◌-◌, ◌%◌, Bool, true, false, Option, none, some, [], ◌∷◌, ◌==◌, if◌then◌else◌, drop,
}
use ccc_upgrade.Base.Bytes.{Bytes, Run, ok, fault, ◌>>=◌, load, c_string}
use ccc_upgrade.Base.Int.{ℤ, pos, pos_part, ltb_ℤ, signed32}
use ccc_upgrade.Util.Words.{four_bytes_to_uint}
use ccc_upgrade.Protocol.{Pdu}
use ccc_upgrade.Configure.{check_login}
use ccc_upgrade.Answers.{discover_device, send_ip, send_reply_to_client}
use ccc_upgrade.Services.{Services}

-- `PCS_EX_OK` and `PCS_EX_ERR`
abbrev pub status : Bool → ℕ
status true = 0xFE
status false = 0xFF

abbrev pub client_login : ℕ
client_login = 0xE1

abbrev pub upload_file : ℕ
upload_file = 0xE2

abbrev pub upgrade : ℕ
upgrade = 0xE3

module _ {W : Type 0} (s : Services W) where
  -- A copy of `len` bytes at `data`, behind `skip` of them, that is closed with a NUL and used as a
  -- string. The result of `malloc` is not checked.
  pub copy_string : ℕ → ℕ → Option Bytes → W → Run (Bytes × W)
  copy_string skip len data_ w =
      let (got, w') = s.malloc (len + 1) w in
      if got
      then elim data_ [
        | none ↦ fault
        | some block ↦ do bytes ← load len (drop skip block); ok (c_string bytes, w')
      ]
      else fault

  -- `process_protocol_upgrade_cmd_ex_02`
  pub process_protocol_upgrade_cmd_ex_02 : W → Run (Bool × W)
  process_protocol_upgrade_cmd_ex_02 w = do w ← s.reboot_device w; ok (true, w)

  abbrev pub run_script : Option Bytes → Pdu → W → Run ((Bool × ℕ) × W)
  run_script dir pdu w =
      if ltb_ℤ (pos 1) pdu.data_len
      then (do
        (filetitle, w) ← copy_string 0 (pos_part pdu.data_len) pdu.block w
        (error_code, w) ← s.file_execute_script dir filetitle w
        ok ((error_code == 0, error_code), w))
      else ok ((false, 0), w)

  pub process_protocol_upgrade_cmd_ex_01 : Option Bytes → ℤ → Pdu → W → Run (Bool × W)
  process_protocol_upgrade_cmd_ex_01 dir handle pdu w = do
    ((b_succeeded, error_code), w) ← run_script dir pdu w
    send_reply_to_client s handle upgrade 1 (status b_succeeded ∷ (error_code % 256) ∷ []) w

  pub process_protocol_upgrade : Option Bytes → ℤ → Pdu → W → Run (Bool × W)
  process_protocol_upgrade dir handle pdu w =
      if pdu.cmd_ex == 1
      then process_protocol_upgrade_cmd_ex_01 dir handle pdu w
      else if pdu.cmd_ex == 2
      then process_protocol_upgrade_cmd_ex_02 w
      else ok (false, w)

  pub process_protocol_upload_file_cmd_ex_01 : ℤ → W → Run (Bool × W)
  process_protocol_upload_file_cmd_ex_01 handle w =
      send_reply_to_client s handle upload_file 1 (status true ∷ []) w

  abbrev pub open_upload : Option Bytes → Pdu → W → Run (Bool × W)
  open_upload dir pdu w =
      if ltb_ℤ (pos 1) pdu.data_len
      then (do
        (filetitle, w) ← copy_string 0 (pos_part pdu.data_len) pdu.block w
        s.file_upload_open dir filetitle w)
      else ok (false, w)

  pub process_protocol_upload_file_cmd_ex_02 : Option Bytes → ℤ → Pdu → W → Run (Bool × W)
  process_protocol_upload_file_cmd_ex_02 dir handle pdu w = do
    (b_succeeded, w) ← open_upload dir pdu w
    send_reply_to_client s handle upload_file 2 (status b_succeeded ∷ []) w

  -- `(long int)offset`: a `long` has 32 bits on the device, so an offset of 2 ^ 31 or more is negative.
  abbrev pub write_upload : Pdu → Bytes → W → Run (Bool × W)
  write_upload pdu block w =
      if ltb_ℤ (pos 4) pdu.data_len
      then (do
        data_buf ← load (pos_part pdu.data_len - 4) (drop 4 block)
        s.file_upload_write (signed32 (four_bytes_to_uint (some block) (pos 4))) data_buf w)
      else ok (false, w)

  -- The first four bytes of the data are sent back, however short the data is.
  pub process_protocol_upload_file_cmd_ex_03 : ℤ → Pdu → W → Run (Bool × W)
  process_protocol_upload_file_cmd_ex_03 handle pdu w = elim pdu.block [
    | none ↦ fault
    | some block ↦ do
      (b_succeeded, w) ← write_upload pdu block w
      offset ← load 4 block
      send_reply_to_client s handle upload_file 3 (status b_succeeded ∷ offset) w
  ]

  abbrev pub starts_ok : Option Bytes → Run Bool
  starts_ok none = fault
  starts_ok (some []) = fault
  starts_ok (some (b ∷ bs)) = ok (b == status true)

  abbrev pub finish_upload : Pdu → W → Run (Bool × W)
  finish_upload pdu w =
      if ltb_ℤ (pos 1) pdu.data_len
      then (do
        confirmed ← starts_ok pdu.block
        if confirmed
            then (do
              (md5sum, w) ← copy_string 1 (pos_part pdu.data_len - 1) pdu.block w
              s.file_upload_single_finish md5sum w)
            else ok (false, w))
      else ok (false, w)

  pub process_protocol_upload_file_cmd_ex_04 : ℤ → Pdu → W → Run (Bool × W)
  process_protocol_upload_file_cmd_ex_04 handle pdu w = do
    (b_succeeded, w) ← finish_upload pdu w
    send_reply_to_client s handle upload_file 4 (status b_succeeded ∷ []) w

  pub process_protocol_upload_file_cmd_ex_05 : ℤ → Pdu → W → Run (Bool × W)
  process_protocol_upload_file_cmd_ex_05 handle pdu w = do
    b_succeeded ← if ltb_ℤ (pos 0) pdu.data_len then starts_ok pdu.block else ok false
    send_reply_to_client s handle upload_file 5 (status b_succeeded ∷ []) w

  pub process_protocol_upload_file : Option Bytes → ℤ → Pdu → W → Run (Bool × W)
  process_protocol_upload_file dir handle pdu w =
      if pdu.cmd_ex == 1
      then process_protocol_upload_file_cmd_ex_01 handle w
      else if pdu.cmd_ex == 2
      then process_protocol_upload_file_cmd_ex_02 dir handle pdu w
      else if pdu.cmd_ex == 3
      then process_protocol_upload_file_cmd_ex_03 handle pdu w
      else if pdu.cmd_ex == 4
      then process_protocol_upload_file_cmd_ex_04 handle pdu w
      else if pdu.cmd_ex == 5
      then process_protocol_upload_file_cmd_ex_05 handle pdu w
      else ok (false, w)

  pub process_protocol_pdu_after_login : Option Bytes → ℤ → Pdu → W → Run (Bool × W)
  process_protocol_pdu_after_login dir handle pdu w =
      if pdu.cmd == upload_file
      then process_protocol_upload_file dir handle pdu w
      else if pdu.cmd == upgrade
      then process_protocol_upgrade dir handle pdu w
      else ok (false, w)

  -- The result of `network_manager_client_set_login` is not looked at.
  abbrev pub try_login : ℤ → Pdu → W → Run (Bool × W)
  try_login handle pdu w =
      if ltb_ℤ (pos 1) pdu.data_len
      then (do
        (password, w) ← copy_string 0 (pos_part pdu.data_len) pdu.block w
        if check_login password
            then (do (_, w) ← s.network_manager_client_set_login handle w; ok (true, w))
            else ok (false, w))
      else ok (false, w)

  pub process_protocol_client_login : ℤ → Pdu → W → Run (Bool × W)
  process_protocol_client_login handle pdu w = do
    (b_succeeded, w) ← try_login handle pdu w
    send_reply_to_client s handle client_login 1 (status b_succeeded ∷ []) w

  pub process_protocol_discover_device : ℤ → W → Run (Bool × W)
  process_protocol_discover_device handle w = do (_, w) ← send_ip s handle w; ok (true, w)

  unfoldable pub process_protocol_pdu : Option Bytes → ℤ → Pdu → Bool → W → Run (Bool × W)
  process_protocol_pdu dir handle pdu b_login w =
      if pdu.cmd == discover_device
      then process_protocol_discover_device handle w
      else if pdu.cmd == client_login
      then process_protocol_client_login handle pdu w
      else if b_login
      then process_protocol_pdu_after_login dir handle pdu w
      else ok (false, w)
