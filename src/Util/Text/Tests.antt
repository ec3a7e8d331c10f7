-- ===== src/Util/Text/Tests.antt =====
-- Paths, and a directory that is made on an empty file system.
use ccc_upgrade.Base.{◌≡◌, refl, ap, true, false, none, some, List, [], ◌∷◌, arith, length}
use ccc_upgrade.Base.Bytes.{Bytes, codes}
use ccc_upgrade.Base.Int.{pos}
use ccc_upgrade.Util.Os.{Os}
use ccc_upgrade.Util.Text.{util_create_dir, create_loop, visit, make_directory}
use ccc_upgrade.Util.Text.Paths.{util_create_dir-Exists}

-- A file system that starts empty: the state is the list of the directories, the last first.
abbrev easy : Os (List Bytes)
easy = record {
  malloc = λ size w. (true, w);
  access = λ path w. (false, w);
  mkdir = λ path w. (true, path ∷ w);
  chmod = λ path w. (true, w);
  system = λ path w. (pos 0, w);
  fopen_write = λ path w. (some 3, w);
  fopen_read = λ path w. (none, w);
  fclose = λ handle w. w;
  fseek = λ handle offset w. (true, w);
  fwrite = λ handle data_ w. (length data_, w);
}

data Listed (path : Bytes) : List Bytes → Type 0 where
  here : {rest : List Bytes} → Listed path (path ∷ rest)
  there : {other : Bytes} {rest : List Bytes} → Listed path rest → Listed path (other ∷ rest)

made : util_create_dir easy (some (codes "a/b")) [] ≡ (true, codes "a/b" ∷ codes "a" ∷ [])
unfolding util_create_dir create_loop visit make_directory
made = refl

util_create_dir-Exists_example :
    Listed (codes "a/b") (util_create_dir easy (some (codes "a/b")) []).1
util_create_dir-Exists_example =
    util_create_dir-Exists easy Listed (λ p w e. cc) (λ p w e. here) (λ p q w h. h)
      (λ p q w h. there h) (codes "a/b") 3 [] (ap (λ x. x.0) made) (omega arith) (omega arith) refl
