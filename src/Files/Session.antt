-- ===== src/Files/Session.antt =====
-- An upload from its start to its end.
use ccc_upgrade.Base.{
  false_is_true, ℕ, ◌+◌, ◌<◌, ◌≡◌, refl, sym, ap, ◌∙◌, ◌≢◌, ◌⊎◌, inl, inr, Bool, true, false, ◌||◌,
  Option, none, some, ◌++◌, arith, ◌==◌, Bool-cases, Option-cases, length,
}
use ccc_upgrade.Base.Bytes.{ok_inv, Bytes, ok, fault, >>=-eq-ok}
use ccc_upgrade.Base.Int.{ℤ}
use ccc_upgrade.Util.Os.{Os}
use ccc_upgrade.Util.Text.{same_nocase, util_dir_append, with_slash}
use ccc_upgrade.Md5.{calcu_md5_checksum}
use ccc_upgrade.Files.{
  read_pointer, Pointer, null, live, dangling, UploadFile, free, upload_file_clear,
  upload_file_save, check_file_by_md5, file_upload_single_finish, file_upload_write,
  check_upgrade_directory, open_in, file_upload_open,
}

-- The current upload has all that a started one has.
pub record IsOpen (u : UploadFile) : Type 0 where
  pub path : Bytes
  pub handle : ℕ
  pub at_path : u.filename_tx ≡ live path
  pub at_handle : u.file_handle ≡ some handle
  pub name : (u.filename ≡ null) ⊎ ((title : Bytes) × (u.filename ≡ live title))

upload_file_save-IsOpen :
    {W : Type 0} (os : Os W) (title path : Bytes) (h : ℕ) (u : UploadFile) (w : W)
    → (upload_file_save os (some title) (some path) (some h) u w).0 ≡ true
    → IsOpen (upload_file_save os (some title) (some path) (some h) u w).1.0
unfolding upload_file_save
upload_file_save-IsOpen os title path h u w e = record {
  path = path;
  handle = h;
  at_path = refl;
  at_handle = refl;
  name = elim (Bool-cases (os.malloc (length title + 1) w).0) [
    | inl got ↦ inr (title, rw got)
    | inr failed ↦ inl (rw failed)
  ];
}

free_safe : (p : Pointer) → p ≢ dangling → (q : Pointer) × (free p ≡ ok q)
free_safe null h = (null, refl)
free_safe (live s) h = (dangling, refl)
free_safe dangling h = absurd (h refl)

name_safe :
    (u : UploadFile)
    → (u.filename ≡ null) ⊎ ((title : Bytes) × (u.filename ≡ live title))
    → u.filename ≢ dangling
name_safe u (inl e) h = cc
name_safe u (inr (title, e)) h = cc

-- What `upload_file_clear` leaves of an upload with a path.
upload_file_clear-closed :
    (u : UploadFile) (path : Bytes)
    → u.filename_tx ≡ live path
    → u.filename ≢ dangling
    → (u' : UploadFile) × (upload_file_clear u ≡ ok u')
      × (u'.filename_tx ≡ dangling)
      × (u'.file_handle ≡ none)
unfolding upload_file_clear
upload_file_clear-closed u path ep en =
    let (q, e) = free_safe u.filename en in
    (record { filename = q; filename_tx = dangling; file_handle = none }, rw (e, ep), refl, refl)

module _ {W : Type 0} (os : Os W) where
  open_in-IsOpen :
      (dir title : Bytes) (u : UploadFile) (w : W)
      → (open_in os dir title u w).0 ≡ true
      → IsOpen (open_in os dir title u w).1.0
  unfolding open_in
  open_in-IsOpen dir title u w h = elim (Bool-cases (check_upgrade_directory os (some dir) w).0) [
    | inr e ↦ false_is_true (rw e at h)
    | inl e ↦
        let w1 : W = (check_upgrade_directory os (some dir) w).1 in
        let made : Option Bytes × W = util_dir_append os (some dir) (some title) w1 in
        elim (Option-cases made.0) [
          | inl f ↦ false_is_true (rw (e, f) at h)
          | inr (path, f) ↦ elim (Option-cases (os.fopen_write path made.1).0) [
            | inl g ↦ false_is_true (rw (e, f, g) at h)
            | inr (handle, g) ↦
                rw (e, f, g)
                  (upload_file_save-IsOpen os title path handle u (os.fopen_write path made.1).1
                    (rw (e, f, g) at h))
          ]
        ]
  ]

  -- A `file_upload_open` that reports success leaves an upload that is open: a path and a handle are
  -- there, whatever the upload before it was.
  pub file_upload_open-IsOpen :
      (dir title : Option Bytes) (u : UploadFile) (w : W)
      → (file_upload_open os dir title u w).0 ≡ true
      → IsOpen (file_upload_open os dir title u w).1.0
  unfolding file_upload_open
  file_upload_open-IsOpen none title u w h = false_is_true h
  file_upload_open-IsOpen (some dir) none u w h = false_is_true h
  file_upload_open-IsOpen (some dir) (some title) u w h =
      elim (Bool-cases (length dir == 0 || length title == 0)) [
        | inl e ↦ false_is_true (rw e at h)
        | inr e ↦ rw e (open_in-IsOpen dir title u w (rw e at h))
      ]

  -- After the end of an open upload, whatever its result, a second `file_upload_single_finish`
  -- uses the freed path, and nothing can be written any more.
  pub file_upload_finish_twice :
      (md5sum again : Bytes) (offset : ℤ) (data_ : Bytes) (u : UploadFile) (w : W) {result : Bool}
      {u' : UploadFile} {w' : W}
      → IsOpen u
      → file_upload_single_finish os md5sum u w ≡ ok (result, (u', w'))
      → (file_upload_single_finish os again u' w' ≡ fault)
        × (file_upload_write os offset data_ u' w' ≡ (false, w'))
  unfolding file_upload_single_finish file_upload_write
  file_upload_finish_twice md5sum again offset data_ u w {u' = u'} o h =
      let (path, _, h1) = >>=-eq-ok (read_pointer u.filename_tx) _ h in
      let ((r, w1), _, h2) = >>=-eq-ok (check_file_by_md5 os path md5sum _) _ h1 in
      let (u1, e1, h3) = >>=-eq-ok (upload_file_clear u) _ h2 in
      let (u2, e2, freed, closed) =
        upload_file_clear-closed u o.path o.at_path (name_safe u o.name) in
      let same : u2 ≡ u' = ok_inv (sym e2 ∙ e1) ∙ ap (λ x. x.1.0) (ok_inv h3) in
      let freed' : u'.filename_tx ≡ dangling = ap (λ x. x.filename_tx) (sym same) ∙ freed in
      let closed' : u'.file_handle ≡ none = ap (λ x. x.file_handle) (sym same) ∙ closed in
      (rw freed', rw (file_upload_write, closed'))

  -- The verdict on an upload with a path and an open file, whose file can be read: the file is
  -- closed, and the sum that the client has sent is right if it begins, in either case of letters,
  -- with the sum of the file. Afterwards no file is open and the path is freed.
  pub file_upload_finish-sum :
      (md5sum text : Bytes) (path : Bytes) (h : ℕ) (u : UploadFile) (w w1 : W)
      → u.filename_tx ≡ live path
      → u.filename ≢ dangling
      → u.file_handle ≡ some h
      → calcu_md5_checksum os (some path) (os.fclose h w) ≡ ok (some text, w1)
      → (u' : UploadFile) × (file_upload_single_finish os md5sum u w
          ≡ ok (same_nocase (length text) md5sum text, (u', w1)))
        × (u'.file_handle ≡ none)
        × (u'.filename_tx ≡ dangling)
  unfolding file_upload_single_finish check_file_by_md5
  file_upload_finish-sum md5sum text path h u w w1 ep en eh es =
      let (u', e, freed, closed) = upload_file_clear-closed u path ep en in
      (u', rw (e, ep, eh, es), closed, freed)

  pub dir_append_lem :
      (dir title : Bytes) (w w1 : W)
      → 0 < length dir
      → 0 < length title
      → os.malloc (length dir + 1 + length title + 1) w ≡ (true, w1)
      → util_dir_append os (some dir) (some title) w ≡ (some (with_slash dir ++ title), w1)
  unfolding util_dir_append
  dir_append_lem dir title w w1 hd ht got =
      let no_dir : (length dir == 0) ≡ false = ground arith in
      let no_title : (length title == 0) ≡ false = ground arith in rw (no_dir, no_title, got)
