-- ===== src/Adapter/Keeps/Files.antt =====
-- The handling of the commands that need a login: uploads, scripts and the reboot.
use ccc_upgrade.Base.{
  ℕ, ◌-◌, ◌%◌, inl, inr, Bool, true, false, Option, [], ◌∷◌, ◌==◌, if◌then◌else◌, Option-cases,
  drop,
}
use ccc_upgrade.Base.Bytes.{Bytes, Run, ok, ◌>>=◌, load}
use ccc_upgrade.Base.Int.{ℤ, pos, pos_part, ltb_ℤ}
use ccc_upgrade.Base.Holds.{returns, undefined, Holds-bind, Holds-pure, Holds-if}
use ccc_upgrade.Protocol.{Pdu}
use ccc_upgrade.Services.{Services}
use ccc_upgrade.Answers.{send_reply_to_client}
use ccc_upgrade.Adapter.{
  status, copy_string, run_script, open_upload, finish_upload, write_upload, starts_ok,
  process_protocol_upgrade, process_protocol_upgrade_cmd_ex_01, process_protocol_upgrade_cmd_ex_02,
  process_protocol_upload_file, process_protocol_upload_file_cmd_ex_01,
  process_protocol_upload_file_cmd_ex_02, process_protocol_upload_file_cmd_ex_03,
  process_protocol_upload_file_cmd_ex_04, process_protocol_upload_file_cmd_ex_05,
  process_protocol_pdu_after_login,
}
use ccc_upgrade.Adapter.Keeps.{
  Leaves, Keeps, KeepsFiles, Leaves-bind, copy_string-Leaves, reply-Leaves,
}

module _ {W : Type 0} (P : W → Type 0) (s : Services W) (kept : Keeps P s) (files : KeepsFiles P s)
    (dir : Option Bytes) where
  run_script-Leaves : (pdu : Pdu) (w : W) → P w → Leaves P (run_script s dir pdu w)
  run_script-Leaves pdu w h =
      Holds-if (ltb_ℤ (pos 1) pdu.data_len) _ _
        (Leaves-bind P s kept (copy_string s 0 (pos_part pdu.data_len) pdu.block w) _
          (copy_string-Leaves P s kept 0 (pos_part pdu.data_len) pdu.block w h)
          λ (title, w) h.
            Leaves-bind P s kept (s.file_execute_script dir title w) _ (files.execute dir title w h)
              λ x h. returns h)
        (returns h)

  upgrade-Leaves :
      (handle : ℤ) (pdu : Pdu) (w : W)
      → P w
      → Leaves P (process_protocol_upgrade s dir handle pdu w)
  unfolding process_protocol_upgrade process_protocol_upgrade_cmd_ex_01
      process_protocol_upgrade_cmd_ex_02
  upgrade-Leaves handle pdu w h =
      Holds-if (pdu.cmd_ex == 1) _ _
        (Leaves-bind P s kept (run_script s dir pdu w) _ (run_script-Leaves pdu w h)
          λ ((done, code), w) h.
            reply-Leaves P s kept handle 0xE3 1 (status done ∷ (code % 256) ∷ []) w h)
        (Holds-if (pdu.cmd_ex == 2) _ _
          (Holds-bind P (s.reboot_device w) _ (files.reboot w h) λ w h. returns h) (returns h))

  -- The answer to a step of an upload.
  answer_upload :
      (cmd_ex : ℕ) (handle : ℤ) (r : Run (Bool × W))
      → Leaves P r
      → Leaves P (do (done, w) ← r; send_reply_to_client s handle 0xE2 cmd_ex (status done ∷ []) w)
  answer_upload cmd_ex handle r h =
      Leaves-bind P s kept r _ h
        λ (done, w) h. reply-Leaves P s kept handle 0xE2 cmd_ex (status done ∷ []) w h

  open_upload-Leaves : (pdu : Pdu) (w : W) → P w → Leaves P (open_upload s dir pdu w)
  open_upload-Leaves pdu w h =
      Holds-if (ltb_ℤ (pos 1) pdu.data_len) _ _
        (Leaves-bind P s kept (copy_string s 0 (pos_part pdu.data_len) pdu.block w) _
          (copy_string-Leaves P s kept 0 (pos_part pdu.data_len) pdu.block w h)
          λ (title, w) h. files.open_file dir title w h)
        (returns h)

  finish_upload-Leaves : (pdu : Pdu) (w : W) → P w → Leaves P (finish_upload s pdu w)
  finish_upload-Leaves pdu w h =
      Holds-if (ltb_ℤ (pos 1) pdu.data_len) _ _
        (Holds-pure (starts_ok s pdu.block) _ λ confirmed.
          Holds-if confirmed _ _
            (Leaves-bind P s kept (copy_string s 1 (pos_part pdu.data_len - 1) pdu.block w) _
              (copy_string-Leaves P s kept 1 (pos_part pdu.data_len - 1) pdu.block w h)
              λ (md5sum, w) h. files.finish_file md5sum w h)
            (returns h))
        (returns h)

  write_upload-Leaves :
      (pdu : Pdu) (block : Bytes) (w : W) → P w → Leaves P (write_upload s pdu block w)
  write_upload-Leaves pdu block w h =
      Holds-if (ltb_ℤ (pos 4) pdu.data_len) _ _
        (Holds-pure (load (pos_part pdu.data_len - 4) (drop 4 block)) _
          λ data_. files.write_file _ data_ w h)
        (returns h)

  piece-Leaves :
      (handle : ℤ) (pdu : Pdu) (w : W)
      → P w
      → Leaves P (process_protocol_upload_file_cmd_ex_03 s handle pdu w)
  unfolding process_protocol_upload_file_cmd_ex_03
  piece-Leaves handle pdu w h = elim (Option-cases pdu.block) [
    | inl e ↦ rw (process_protocol_upload_file_cmd_ex_03, e) undefined
    | inr (block, e) ↦
        rw (process_protocol_upload_file_cmd_ex_03, e)
          (Leaves-bind P s kept (write_upload s pdu block w) _ (write_upload-Leaves pdu block w h)
            λ (done, w) h.
              Holds-pure (load 4 block) _
                λ offset. reply-Leaves P s kept handle 0xE2 3 (status done ∷ offset) w h)
  ]

  upload-Leaves :
      (handle : ℤ) (pdu : Pdu) (w : W)
      → P w
      → Leaves P (process_protocol_upload_file s dir handle pdu w)
  unfolding process_protocol_upload_file process_protocol_upload_file_cmd_ex_01
      process_protocol_upload_file_cmd_ex_02 process_protocol_upload_file_cmd_ex_04
      process_protocol_upload_file_cmd_ex_05
  upload-Leaves handle pdu w h =
      Holds-if (pdu.cmd_ex == 1) _ _ (reply-Leaves P s kept handle 0xE2 1 (status true ∷ []) w h) (
        Holds-if (pdu.cmd_ex == 2) _ _
          (answer_upload 2 handle (open_upload s dir pdu w) (open_upload-Leaves pdu w h))
          (Holds-if (pdu.cmd_ex == 3) _ _ (piece-Leaves handle pdu w h) (
            Holds-if (pdu.cmd_ex == 4) _ _
              (answer_upload 4 handle (finish_upload s pdu w) (finish_upload-Leaves pdu w h))
              (Holds-if (pdu.cmd_ex == 5) _ _
                (Holds-pure (if ltb_ℤ (pos 0) pdu.data_len then starts_ok s pdu.block else ok false)
                  _ λ done. reply-Leaves P s kept handle 0xE2 5 (status done ∷ []) w h)
                (returns h)))))

  pub after_login-Leaves :
      (handle : ℤ) (pdu : Pdu) (w : W)
      → P w
      → Leaves P (process_protocol_pdu_after_login s dir handle pdu w)
  unfolding process_protocol_pdu_after_login
  after_login-Leaves handle pdu w h =
      Holds-if (pdu.cmd == 0xE2) _ _ (upload-Leaves handle pdu w h)
        (Holds-if (pdu.cmd == 0xE3) _ _ (upgrade-Leaves handle pdu w h) (returns h))
