-- ===== src/Files.antt =====
-- src/file_manager/upload_file.c and file_manager.c: the file that is being uploaded, the check of its
-- sum, and the start of a script.
pub mod Session
pub mod Transfer
pub mod Opening
mod Tests
use ccc_upgrade.Base.{
  ℕ, ◌+◌, Bool, true, false, ◌||◌, Option, none, some, ◌==◌, if◌then◌else◌, length,
}
use ccc_upgrade.Base.Bytes.{Bytes, Run, ok, fault, ◌>>=◌}
use ccc_upgrade.Base.Int.{ℤ}
use ccc_upgrade.Util.Os.{Os}
use ccc_upgrade.Util.Text.{same_nocase, util_dir_append, util_file_is_exist, util_create_dir}
use ccc_upgrade.Md5.{calcu_md5_checksum}

-- A `char *` that owns its string: NULL, a string, or the address of a string that was freed.
pub data Pointer : Type 0 where
  null : Pointer
  live : Bytes → Pointer
  dangling : Pointer

-- `UPLOAD_FILE_T`
pub record UploadFile : Type 0 where
  pub filename : Pointer
  pub filename_tx : Pointer
  pub file_handle : Option ℕ

-- `l_upload_current` at the start.
abbrev pub no_upload : UploadFile
no_upload = record { filename = null; filename_tx = null; file_handle = none }

abbrev pub free : Pointer → Run Pointer
free null = ok null
free (live s) = ok dangling
free dangling = fault

-- A string that a call reads.
abbrev pub read_pointer : Pointer → Run (Option Bytes)
read_pointer null = ok none
read_pointer (live s) = ok (some s)
read_pointer dangling = fault

-- `internal_upload_file_clear`: the pointers keep the addresses of what was freed.
pub upload_file_clear : UploadFile → Run UploadFile
upload_file_clear u = do
  filename ← free u.filename
  filename_tx ← free u.filename_tx
  ok (record { filename = filename; filename_tx = filename_tx; file_handle = none })

abbrev pub upload_file_get_handle : UploadFile → Option ℕ
upload_file_get_handle u = u.file_handle

abbrev pub upload_file_get_path : UploadFile → Pointer
upload_file_get_path u = u.filename_tx

abbrev pub pointer_of : Option Bytes → Pointer
pointer_of none = null
pointer_of (some s) = live s

module _ {W : Type 0} (os : Os W) where
  -- `strdup`
  abbrev pub strdup : Bytes → W → Option Bytes × W
  strdup s w = let (got, w') = os.malloc (length s + 1) w in (if got then some s else none, w')

  pub upload_file_save :
      Option Bytes → Option Bytes → Option ℕ → UploadFile → W → Bool × (UploadFile × W)
  upload_file_save none filename_tx handle u w = (false, (u, w))
  upload_file_save (some filetitle) none handle u w = (false, (u, w))
  upload_file_save (some filetitle) (some filename_tx) none u w = (false, (u, w))
  upload_file_save (some filetitle) (some filename_tx) (some handle) u w =
      let (copy, w') = strdup filetitle w in
      (
        true,
        (
          record {
            filename = pointer_of copy;
            filename_tx = live filename_tx;
            file_handle = some handle;
          },
          w',
        ),
      )

  pub check_file_by_md5 : Option Bytes → Bytes → W → Run (Bool × W)
  check_file_by_md5 check_filename md5sum w = do
    (sum_buffer, w') ← calcu_md5_checksum os check_filename w
    elim sum_buffer [
      | none ↦ ok (false, w')
      | some text ↦ ok (same_nocase (length text) md5sum text, w')
    ]

  abbrev pub close_upload : Option ℕ → W → W
  close_upload none w = w
  close_upload (some handle) w = os.fclose handle w

  pub file_upload_single_finish : Bytes → UploadFile → W → Run (Bool × (UploadFile × W))
  file_upload_single_finish md5sum u w = do
    file_path ← read_pointer (upload_file_get_path u)
    (result, w') ← check_file_by_md5 file_path md5sum (close_upload (upload_file_get_handle u) w)
    u' ← upload_file_clear u
    ok (result, (u', w'))

  pub file_upload_write : ℤ → Bytes → UploadFile → W → Bool × W
  file_upload_write offset data_buf u w = elim (upload_file_get_handle u) [
    | none ↦ (false, w)
    | some handle ↦
        let (sought, w1) = os.fseek handle offset w in
        if sought
        then (let (written, w2) = os.fwrite handle data_buf w1 in (written == length data_buf, w2))
        else (false, w1)
  ]

  pub check_upgrade_directory : Option Bytes → W → Bool × W
  check_upgrade_directory none w = (false, w)
  check_upgrade_directory (some temp_dir) w =
      let (found, w') = util_file_is_exist os temp_dir w in
      if found then (true, w') else util_create_dir os (some temp_dir) w'

  -- `file_upload_open` behind its checks of the directory and the title.
  pub open_in : Bytes → Bytes → UploadFile → W → Bool × (UploadFile × W)
  open_in dir filetitle u w =
      let (ready, w1) = check_upgrade_directory (some dir) w in
      if ready
      then (let (filename_tx, w2) = util_dir_append os (some dir) (some filetitle) w1 in
          elim filename_tx [
            | none ↦ (false, (u, w2))
            | some path ↦
                let (handle, w3) = os.fopen_write path w2 in
                elim handle [
                  | none ↦ (false, (u, w3))
                  | some h ↦ upload_file_save (some filetitle) (some path) (some h) u w3
                ]
          ])
      else (false, (u, w1))

  pub file_upload_open : Option Bytes → Option Bytes → UploadFile → W → Bool × (UploadFile × W)
  file_upload_open none filetitle u w = (false, (u, w))
  file_upload_open (some dir) none u w = (false, (u, w))
  file_upload_open (some dir) (some filetitle) u w =
      if length dir == 0 || length filetitle == 0
      then (false, (u, w))
      else open_in dir filetitle u w

  -- 0 if the script was started, or if there was nothing to start; 1 without a file; 2 without
  -- memory; 3 without the right to change the mode.
  pub file_execute_script : Option Bytes → Option Bytes → W → ℕ × W
  file_execute_script none filetitle w = (0, w)
  file_execute_script (some dir) none w = (0, w)
  file_execute_script (some dir) (some filetitle) w =
      if length dir == 0 || length filetitle == 0
      then (0, w)
      else let (filename, w1) = util_dir_append os (some dir) (some filetitle) w in
        elim filename [
          | none ↦ (2, w1)
          | some path ↦
              let (found, w2) = util_file_is_exist os path w1 in
              if found
              then (let (changed, w3) = os.chmod path w2 in
                  if changed then (0, (os.system path w3).1) else (3, w3))
              else (1, w2)
        ]
