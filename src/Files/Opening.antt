-- ===== src/Files/Opening.antt =====
-- The start of an upload where nothing fails.
use ccc_upgrade.Base.{
  ℕ, ◌+◌, ◌<◌, ◌≡◌, refl, ◌∙◌, ◌≢◌, true, false, some, [], ◌++◌, arith, ◌==◌, length, length-append,
}
use ccc_upgrade.Base.Bytes.{Bytes}
use ccc_upgrade.Util.Os.{Os}
use ccc_upgrade.Util.Text.{with_slash}
use ccc_upgrade.Files.{
  UploadFile, live, dangling, upload_file_save, check_upgrade_directory, open_in, file_upload_open,
}
use ccc_upgrade.Files.Session.{dir_append_lem}

-- The upload in progress has its path, and its file is open.
pub record IsStarted (u : UploadFile) (handle : ℕ) (path : Bytes) : Type 0 where
  pub at_handle : u.file_handle ≡ some handle
  pub at_path : u.filename_tx ≡ live path
  pub name : u.filename ≢ dangling
  pub named : 0 < length path

-- The directory is there, there is always memory, which leaves the file alone, and the file can be
-- created, empty at first.
pub record CanOpen {W : Type 0} (os : Os W) (dir title : Bytes) (handle : ℕ) (content : W → Bytes)
    : Type 0 where
  pub there : (w : W) → (os.access dir w).0 ≡ true
  pub mallocs :
      (size : ℕ) (w : W) → (w' : W) × (os.malloc size w ≡ (true, w')) × (content w' ≡ content w)
  pub creates :
      (w : W)
      → (w' : W) × (os.fopen_write (with_slash dir ++ title) w ≡ (some handle, w'))
        × (content w' ≡ [])

check_upgrade_directory-there :
    {W : Type 0} (os : Os W) (dir : Bytes) (w : W)
    → (os.access dir w).0 ≡ true
    → check_upgrade_directory os (some dir) w ≡ (true, (os.access dir w).1)
unfolding check_upgrade_directory
check_upgrade_directory-there os dir w e = rw (check_upgrade_directory, e) refl

pub file_upload_open-works :
    {W : Type 0} (os : Os W) (dir title : Bytes) (handle : ℕ) (content : W → Bytes)
    → CanOpen os dir title handle content
    → 0 < length dir
    → 0 < length title
    → (u : UploadFile) (w : W)
    → (u' : UploadFile) × (w' : W) × (file_upload_open os (some dir) (some title) u w
        ≡ (true, (u', w')))
      × IsStarted u' handle (with_slash dir ++ title)
      × (content w' ≡ [])
unfolding file_upload_open open_in upload_file_save
file_upload_open-works os dir title handle content can hd ht u w =
    let path : Bytes = with_slash dir ++ title in
    let w0 = (os.access dir w).1 in
    let (w1, e1, _) = can.mallocs (length dir + 1 + length title + 1) w0 in
    let ready = check_upgrade_directory-there os dir w (can.there w) in
    let appended = dir_append_lem os dir title w0 w1 hd ht e1 in
    let (w2, e2, empty) = can.creates w1 in
    let (w3, e3, same) = can.mallocs (length title + 1) w2 in
    let no_dir : (length dir == 0) ≡ false = ground arith in
    let no_title : (length title == 0) ≡ false = ground arith in
    (
      record { filename = live title; filename_tx = live path; file_handle = some handle },
      w3,
      rw
          (
            file_upload_open, no_dir, no_title, ready, appended, ready, appended, e2, ready,
            appended, e2, e3,
          )
          refl,
      record {
        at_handle = refl;
        at_path = refl;
        name = λ e. cc;
        named = omega (arith, length-append {0} (with_slash dir) title);
      },
      same ∙ empty,
    )
