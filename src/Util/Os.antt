-- ===== src/Util/Os.antt =====
-- What the program asks of the C library about memory and files, each call a step on a state `W`.
use ccc_upgrade.Base.{ℕ, Bool, Option, List}
use ccc_upgrade.Base.Bytes.{Bytes}
use ccc_upgrade.Base.Int.{ℤ}

-- A path is a C string. `malloc` answers whether it has memory of the size, `access` whether the path is
-- there, `mkdir`, `chmod` and `fseek` whether they succeed, and `fwrite` how many bytes it has written.
-- `fopen_write` is `fopen(path, "w+")`, `fopen_read` is `fopen(path, "r")` with the bytes that the
-- calls of `fread` on the file return then, each call at least one.
pub record Os (W : Type 0) : Type 0 where
  pub malloc : ℕ → W → Bool × W
  pub access : Bytes → W → Bool × W
  pub mkdir : Bytes → W → Bool × W
  pub chmod : Bytes → W → Bool × W
  pub system : Bytes → W → ℤ × W
  pub fopen_write : Bytes → W → Option ℕ × W
  pub fopen_read : Bytes → W → Option (List Bytes) × W
  pub fclose : ℕ → W → W
  pub fseek : ℕ → ℤ → W → Bool × W
  pub fwrite : ℕ → Bytes → W → ℕ × W
