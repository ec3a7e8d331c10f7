-- ===== src/Files/Transfer.antt =====
-- A whole upload: its pieces one after the other, then the check of the sum.
pub mod Tests
use ccc_upgrade.Base.{
  ◌^◌, false_is_true, ℕ, ◌<◌, ◌≡◌, refl, sym, ap, subst, ◌∙◌, ◌≢◌, inl, inr, true, false, none,
  some, List, [], ◌∷◌, ◌++◌, arith, ◌==◌, ==_iff, Bool-cases, Option-cases, length,
}
use ccc_upgrade.Base.Bytes.{Bytes, ok}
use ccc_upgrade.Base.Int.{pos, negsuc}
use ccc_upgrade.Util.Os.{Os}
use ccc_upgrade.Util.Text.{same_nocase, lower}
use ccc_upgrade.Md5.{calcu_md5_checksum, hex_text, sum}
use ccc_upgrade.Md5.Message.{digest_of, concat, Reads}
use ccc_upgrade.Md5.Chunks.{sum-digest}
use ccc_upgrade.Files.{live, dangling, UploadFile, file_upload_single_finish, file_upload_write}
use ccc_upgrade.Files.Session.{file_upload_finish-sum}

pub same_nocase_self : (text : Bytes) → same_nocase (length text) text text ≡ true
unfolding same_nocase
same_nocase_self [] = refl
same_nocase_self (c ∷ cs) = rw ((==_iff (lower c) (lower c)).1 refl) (same_nocase_self cs)

-- What is assumed of the file behind a handle, with its bytes and the place of the handle in it: `fseek`
-- moves the place and leaves the bytes; `fwrite` at the end appends what it says it has written;
-- `fclose` leaves the bytes; and `fread` delivers them, in pieces that are not empty and not larger
-- than it is asked for.
pub record IsFile {W : Type 0} (os : Os W) (handle : ℕ) (path : Bytes) (content : W → Bytes)
    (place : W → ℕ) : Type 0 where
  pub seeks :
      (offset : ℕ) (w : W)
      → (os.fseek handle (pos offset) w).0 ≡ true
      → (content (os.fseek handle (pos offset) w).1 ≡ content w)
        × (place (os.fseek handle (pos offset) w).1 ≡ offset)
  pub appends :
      (data_ : Bytes) (w : W)
      → (os.fwrite handle data_ w).0 ≡ length data_
      → place w ≡ length (content w)
      → content (os.fwrite handle data_ w).1 ≡ content w ++ data_
  pub closes : (w : W) → content (os.fclose handle w) ≡ content w
  pub reads :
      (w : W) (chunks : List Bytes)
      → (os.fopen_read path w).0 ≡ some chunks
      → Reads 0 chunks × (concat chunks ≡ content w)

-- A disk on which every write to the handle succeeds, at an offset that a `long` of 32 bits can hold.
pub record NeverFails {W : Type 0} (os : Os W) (handle : ℕ) (content : W → Bytes) (place : W → ℕ)
    : Type 0 where
  pub sought : (offset : ℕ) (w : W) → offset < 2 ^ 31 → (os.fseek handle (pos offset) w).0 ≡ true
  pub written :
      (data_ : Bytes) (w : W)
      → place w ≡ length (content w)
      → (os.fwrite handle data_ w).0 ≡ length data_

-- `fseek` from the start of a file fails for a negative offset, and changes nothing.
abbrev pub RefusesNegative : {X : Type 0} → Os X → Type 0
RefusesNegative {X} os = (handle n : ℕ) (x : X) → os.fseek handle (negsuc n) x ≡ (false, x)

pub file_upload_write_far :
    {X : Type 0} (os : Os X)
    → RefusesNegative os
    → (n : ℕ) (data_ : Bytes) (u : UploadFile) (x : X)
    → file_upload_write os (negsuc n) data_ u x ≡ (false, x)
unfolding file_upload_write
file_upload_write_far os refuses n data_ u x = elim (Option-cases u.file_handle) [
  | inl e ↦ rw (file_upload_write, e) refl
  | inr (handle, e) ↦ rw (file_upload_write, e, refuses handle n x) refl
]

module _ {W : Type 0} (os : Os W) (u : UploadFile) where
  -- Each piece is written with success behind the ones before it; `sent` are the bytes so far.
  pub data Written : Bytes → W → Bytes → W → Type 0 where
    all_sent : (sent : Bytes) (w : W) → Written sent w sent w
    piece :
        (sent data_ : Bytes) (w : W) {w' : W} {total : Bytes} {end : W}
        → file_upload_write os (pos (length sent)) data_ u w ≡ (true, w')
        → Written (sent ++ data_) w' total end
        → Written sent w total end

module _ {W : Type 0} (os : Os W) (handle : ℕ) (path : Bytes) (content : W → Bytes) (place : W → ℕ)
    (file : IsFile os handle path content place) (u : UploadFile)
    (at_handle : u.file_handle ≡ some handle) where
  file_upload_write-content :
      (data_ : Bytes) (w : W) {w' : W}
      → file_upload_write os (pos (length (content w))) data_ u w ≡ (true, w')
      → content w' ≡ content w ++ data_
  unfolding file_upload_write
  file_upload_write-content data_ w h =
      let w1 : W = (os.fseek handle (pos (length (content w))) w).1 in
      let written : ℕ = (os.fwrite handle data_ w1).0 in
      elim (Bool-cases (os.fseek handle (pos (length (content w))) w).0) [
        | inr lost ↦ false_is_true (ap (λ r. r.0) (rw (file_upload_write, at_handle, lost) at h))
        | inl sought ↦
            let (kept, there) = file.seeks (length (content w)) w sought in
            let e = rw (file_upload_write, at_handle, sought) at h in
            let whole : written ≡ length data_ =
              (==_iff written (length data_)).0 (ap (λ r. r.0) e) in
            ap content (sym (ap (λ r. r.1) e))
            ∙ file.appends data_ w1 whole (there ∙ ap length (sym kept))
            ∙ ap (λ t. t ++ data_) kept
      ]

  pub file_upload_write-works :
      NeverFails os handle content place
      → (data_ : Bytes) (w : W) → length (content w) < 2 ^ 31
      → (w' : W) × (file_upload_write os (pos (length (content w))) data_ u w ≡ (true, w'))
        × (content w' ≡ content w ++ data_)
  unfolding file_upload_write
  file_upload_write-works works data_ w small =
      let w1 : W = (os.fseek handle (pos (length (content w))) w).1 in
      let e1 = works.sought (length (content w)) w small in
      let (kept, there) = file.seeks (length (content w)) w e1 in
      let whole = works.written data_ w1 (there ∙ ap length (sym kept)) in
      let same : ((os.fwrite handle data_ w1).0 == length data_) ≡ true =
        (==_iff (os.fwrite handle data_ w1).0 (length data_)).1 whole in
      let wrote : file_upload_write os (pos (length (content w))) data_ u w
          ≡ (true, (os.fwrite handle data_ w1).1) =
        rw (file_upload_write, at_handle, e1, same) refl in
      ((os.fwrite handle data_ w1).1, wrote, file_upload_write-content data_ w wrote)

  Written-content :
      {sent total : Bytes} {w end : W}
      → content w ≡ sent
      → Written os u sent w total end
      → content end ≡ total
  Written-content e (all_sent sent w) = e
  Written-content e (piece sent data_ w {w'} wrote rest) =
      Written-content
        (file_upload_write-content data_ w (
            subst (λ s. file_upload_write os (pos (length s)) data_ u w ≡ (true, w')) (sym e) wrote)
          ∙ ap (λ s. s ++ data_) e)
        rest

  -- The verdict on a file that holds `total`.
  pub finish_verdict :
      (md5sum total : Bytes) (end w1 : W) (chunks : List Bytes)
      → u.filename_tx ≡ live path
      → u.filename ≢ dangling
      → 0 < length path
      → content end ≡ total
      → os.fopen_read path (os.fclose handle end) ≡ (some chunks, w1)
      → let right = hex_text (digest_of total) in
        (u' : UploadFile) × (file_upload_single_finish os md5sum u end
          ≡ ok (same_nocase (length right) md5sum right, (u', w1)))
        × (u'.file_handle ≡ none)
  unfolding calcu_md5_checksum
  finish_verdict md5sum total end w1 chunks ep en named held opened =
      let (pieces, whole) = file.reads (os.fclose handle end) chunks (ap (λ r. r.0) opened) in
      let right : Bytes = hex_text (digest_of total) in
      let summed : sum chunks ≡ ok right =
        sum-digest chunks pieces
        ∙ ap (λ t. ok (hex_text (digest_of t))) (whole ∙ file.closes end ∙ held) in
      let no_name : (length path == 0) ≡ false = ground arith in
      let checked : calcu_md5_checksum os (some path) (os.fclose handle end) ≡ ok (some right, w1) =
        rw (no_name, opened, summed) (ap (λ (x : W). ok (some right, x)) (ap (λ r. r.1) opened)) in
      let (u', e, closed, _) =
        file_upload_finish-sum os md5sum right path handle u end w1 ep en at_handle checked in
      (u', e, closed)

  -- The pieces and the check of an upload that is open, into a file that is empty at first and has less
  -- than 2 GB in the end: where every piece was written with success behind the ones before it, and the
  -- file can be read, the verdict is whether the client's sum begins, in either case of letters, with
  -- the MD5 sum of all the pieces in their order. The right sum is accepted. Afterwards the file still
  -- holds the pieces, and the upload has no handle any more.
  pub upload-verdict :
      (md5sum total : Bytes) (w0 end w1 : W) (chunks : List Bytes)
      → u.filename_tx ≡ live path
      → u.filename ≢ dangling
      → 0 < length path
      → content w0 ≡ []
      → Written os u [] w0 total end
      → length total < 2 ^ 31
      → os.fopen_read path (os.fclose handle end) ≡ (some chunks, w1)
      → let right = hex_text (digest_of total) in
        (u' : UploadFile) × (file_upload_single_finish os md5sum u end
          ≡ ok (same_nocase (length right) md5sum right, (u', w1)))
        × (md5sum ≡ right → file_upload_single_finish os md5sum u end ≡ ok (true, (u', w1)))
        × (content (os.fclose handle end) ≡ total)
        × (u'.file_handle ≡ none)
  upload-verdict md5sum total w0 end w1 chunks ep en named empty written small opened =
      let held : content end ≡ total = Written-content empty written in
      let (u', e, closed) = finish_verdict md5sum total end w1 chunks ep en named held opened in
      (
        u',
        e,
        λ same.
            e
            ∙ ap (λ b. ok (b, (u', w1))) (rw same (same_nocase_self (hex_text (digest_of total)))),
        file.closes end ∙ held,
        closed,
      )
