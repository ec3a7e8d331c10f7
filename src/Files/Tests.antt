-- ===== src/Files/Tests.antt =====
-- Uploads on a system where every call succeeds.
use ccc_upgrade.Base.{◌≡◌, refl, ap, inr, true, false, none, some, List, [], ◌∷◌, length}
use ccc_upgrade.Base.Bytes.{Bytes, codes, ok, fault, store, load}
use ccc_upgrade.Base.Int.{pos}
use ccc_upgrade.Util.Os.{Os}
use ccc_upgrade.Util.Text.{util_dir_append, same_nocase}
use ccc_upgrade.Md5.{
  calcu_md5_checksum, sum, sum_loop, md5, md5_blocks, md5_block, md5_steps, md5_step, mix, encode,
  padding,
}
use ccc_upgrade.Files.{
  live, dangling, UploadFile, no_upload, upload_file_clear, upload_file_save, check_file_by_md5,
  file_upload_single_finish, file_upload_write, check_upgrade_directory, open_in, file_upload_open,
}
use ccc_upgrade.Files.Session.{IsOpen, file_upload_open-IsOpen, file_upload_finish_twice}

-- The state is what was made or run, the last first. Each file holds "abc".
abbrev easy : Os (List Bytes)
easy = record {
  malloc = λ size w. (true, w);
  access = λ path w. (true, w);
  mkdir = λ path w. (true, path ∷ w);
  chmod = λ path w. (true, w);
  system = λ path w. (pos 0, path ∷ w);
  fopen_write = λ path w. (some 3, w);
  fopen_read = λ path w. (some ((97 ∷ 98 ∷ 99 ∷ []) ∷ []), w);
  fclose = λ handle w. w;
  fseek = λ handle offset w. (true, w);
  fwrite = λ handle data_ w. (length data_, w);
}

abbrev uploading : UploadFile
uploading = record {
  filename = live (codes "a");
  filename_tx = live (codes "/tmp/a");
  file_handle = some 3;
}

abbrev finished : UploadFile
finished = record { filename = dangling; filename_tx = dangling; file_handle = none }

uploading-IsOpen : IsOpen uploading
uploading-IsOpen = record {
  path = codes "/tmp/a";
  handle = 3;
  at_path = refl;
  at_handle = refl;
  name = inr (codes "a", refl);
}

opened :
    file_upload_open easy (some (codes "/tmp")) (some (codes "a")) no_upload []
    ≡ (true, (uploading, []))
unfolding file_upload_open open_in check_upgrade_directory util_dir_append upload_file_save
opened = refl

abc_text :
    calcu_md5_checksum easy (some (codes "/tmp/a")) []
    ≡ ok (some (codes "900150983CD24FB0D6963F7D28E17F72"), [])
unfolding calcu_md5_checksum sum sum_loop md5 md5_blocks md5_block md5_steps md5_step mix store load
    encode padding
abc_text = refl

-- The client may send the sum in small letters.
finish_small :
    file_upload_single_finish easy (codes "900150983cd24fb0d6963f7d28e17f72") uploading []
    ≡ ok (true, (finished, []))
unfolding file_upload_single_finish check_file_by_md5 upload_file_clear same_nocase
finish_small = rw abc_text

file_upload_open-IsOpen_example :
    IsOpen (file_upload_open easy (some (codes "/tmp")) (some (codes "a")) no_upload []).1.0
file_upload_open-IsOpen_example =
    file_upload_open-IsOpen easy (some (codes "/tmp")) (some (codes "a")) no_upload []
      (ap (λ x. x.0) opened)

file_upload_finish_twice_example :
    (file_upload_single_finish easy [] finished [] ≡ fault)
    × (file_upload_write easy (pos 0) (1 ∷ []) finished [] ≡ (false, []))
file_upload_finish_twice_example =
    file_upload_finish_twice easy (codes "900150983cd24fb0d6963f7d28e17f72") [] (pos 0) (1 ∷ [])
      uploading [] uploading-IsOpen finish_small
