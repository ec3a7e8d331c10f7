-- ===== src/Program/Far.antt =====
-- Pieces of a file whose offset a `long` of 32 bits cannot hold.
use ccc_upgrade.Base.Bytes.{Bytes}
