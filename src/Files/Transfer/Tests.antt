-- ===== src/Files/Transfer/Tests.antt =====
-- An upload of two pieces to a disk that holds one file.
use ccc_upgrade.Base.{
  false, Bool, ℕ, ◌+◌, ◌<◌, ◌≡◌, refl, ap, subst, true, none, some, List, [], ◌∷◌, ◌++◌, arith,
  ◌==◌, if◌then◌else◌, length,
}
use ccc_upgrade.Base.Bytes.{Bytes, codes, ok}
use ccc_upgrade.Base.Int.{ℤ, pos, negsuc}
use ccc_upgrade.Util.Os.{Os}
use ccc_upgrade.Util.Text.{same_nocase}
use ccc_upgrade.Md5.{hex_text}
use ccc_upgrade.Md5.Message.{digest_of, concat, Reads, waiting}
use ccc_upgrade.Files.{live, null, UploadFile, file_upload_single_finish, file_upload_write}
use ccc_upgrade.Files.Transfer.{IsFile, NeverFails, Written, all_sent, piece, upload-verdict}

-- The bytes of the file, and the place of its handle.
abbrev pub Disk : Type 0
Disk = Bytes × ℕ

-- A file that is read byte by byte.
abbrev pub singles : Bytes → List Bytes
singles [] = []
singles (b ∷ bs) = (b ∷ []) ∷ singles bs

abbrev pub append_at_end : Bytes → Disk → ℕ × Disk
append_at_end data_ (held, at) =
    if at == length held
    then (length data_, (held ++ data_, at + length data_))
    else (0, (held, at))

abbrev seek_to : ℤ → Disk → Bool × Disk
seek_to (pos offset) w = (true, (w.0, offset))
seek_to (negsuc n) w = (false, w)

abbrev pub one_file : Os Disk
one_file = record {
  malloc = λ size w. (true, w);
  access = λ path w. (true, w);
  mkdir = λ path w. (true, w);
  chmod = λ path w. (true, w);
  system = λ path w. (pos 0, w);
  fopen_write = λ path w. (some 3, ([], 0));
  fopen_read = λ path w. (some (singles w.0), w);
  fclose = λ handle w. w;
  fseek = λ handle offset w. seek_to offset w;
  fwrite = λ handle data_ w. append_at_end data_ w;
}

singles-Reads : (n : ℕ) (bs : Bytes) → n < 64 → Reads n (singles bs)
singles-Reads n [] h = tt
singles-Reads n (b ∷ bs) h =
    (omega arith, omega arith, singles-Reads (waiting (n + 1)) bs (ground arith))

concat-singles : (bs : Bytes) → concat (singles bs) ≡ bs
concat-singles [] = refl
concat-singles (b ∷ bs) = ap (λ t. b ∷ t) (concat-singles bs)

appended :
    (data_ held : Bytes) (at : ℕ)
    → at ≡ length held
    → (append_at_end data_ (held, at)).1.0 ≡ held ++ data_
appended data_ held at e = let same : (at == length held) ≡ true = ground arith in rw same refl

pub one_file-IsFile : (path : Bytes) → IsFile one_file 3 path (λ w. w.0) (λ w. w.1)
one_file-IsFile path = record {
  seeks = λ offset w e. (refl, refl);
  appends = λ data_ w e there. appended data_ w.0 w.1 there;
  closes = λ w. refl;
  reads = λ w chunks e.
      let same : singles w.0 ≡ chunks = cc in
      subst (λ c. Reads 0 c × (concat c ≡ w.0)) same
        (singles-Reads 0 w.0 (omega arith), concat-singles w.0);
}

abbrev pub sending : UploadFile
sending = record { filename = null; filename_tx = live (codes "/tmp/a"); file_handle = some 3 }

first_lem : file_upload_write one_file (pos 0) (97 ∷ []) sending ([], 0) ≡ (true, (97 ∷ [], 1))
unfolding file_upload_write
first_lem = refl

second_lem :
    file_upload_write one_file (pos 1) (98 ∷ 99 ∷ []) sending (97 ∷ [], 1)
    ≡ (true, (97 ∷ 98 ∷ 99 ∷ [], 3))
unfolding file_upload_write
second_lem = refl

abc-Written : Written one_file sending [] ([], 0) (97 ∷ 98 ∷ 99 ∷ []) (97 ∷ 98 ∷ 99 ∷ [], 3)
abc-Written =
    piece [] (97 ∷ []) ([], 0) first_lem
      (piece (97 ∷ []) (98 ∷ 99 ∷ []) (97 ∷ [], 1) second_lem
        (all_sent (97 ∷ 98 ∷ 99 ∷ []) (97 ∷ 98 ∷ 99 ∷ [], 3)))

upload-verdict_example :
    let abc : Bytes = 97 ∷ 98 ∷ 99 ∷ [] in
    let end : Disk = (abc, 3) in
    let right : Bytes = hex_text (digest_of abc) in
    let md5sum : Bytes = codes "900150983cd24fb0d6963f7d28e17f72" in
    (u' : UploadFile) × (file_upload_single_finish one_file md5sum sending end
      ≡ ok (same_nocase (length right) md5sum right, (u', end)))
    × (md5sum ≡ right
        → file_upload_single_finish one_file md5sum sending end ≡ ok (true, (u', end)))
    × ((one_file.fclose 3 end).0 ≡ abc)
    × (u'.file_handle ≡ none)
upload-verdict_example =
    upload-verdict one_file 3 (codes "/tmp/a") (λ w. w.0) (λ w. w.1)
      (one_file-IsFile (codes "/tmp/a")) sending refl (codes "900150983cd24fb0d6963f7d28e17f72")
      (97 ∷ 98 ∷ 99 ∷ []) ([], 0) (97 ∷ 98 ∷ 99 ∷ [], 3) (97 ∷ 98 ∷ 99 ∷ [], 3)
      (singles (97 ∷ 98 ∷ 99 ∷ [])) refl (λ e. cc) (omega arith) refl abc-Written (omega arith) refl

pub one_file-NeverFails : NeverFails one_file 3 (λ w. w.0) (λ w. w.1)
one_file-NeverFails = record {
  sought = λ offset w h. refl;
  written = λ data_ w there. whole data_ w.0 w.1 there;
}
  where
    whole :
        (data_ held : Bytes) (at : ℕ)
        → at ≡ length held
        → (append_at_end data_ (held, at)).0 ≡ length data_
    whole data_ held at e = let same : (at == length held) ≡ true = ground arith in rw same refl
