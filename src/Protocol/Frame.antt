-- ===== src/Protocol/Frame.antt =====
-- The wire format of a packet, written down apart from the code that builds and parses it.
use ccc_upgrade.Base.{ℕ, ◌+◌, ◌/◌, ◌%◌, ◌^◌, [], ◌∷◌, ◌++◌, length}
use ccc_upgrade.Base.Bytes.{Bytes}
use ccc_upgrade.Util.Words.{split_four}

abbrev pub sum : Bytes → ℕ
sum [] = 0
sum (b ∷ bs) = b + sum bs

-- All of a packet but its checksum.
abbrev pub body : ℕ → ℕ → Bytes → Bytes
body cmd cmd_ex payload = (0x7e ∷ cmd ∷ cmd_ex ∷ split_four (length payload)) ++ payload

-- A body, and the low 16 bits of the sum of its bytes, high byte first.
abbrev pub trailer : Bytes → Bytes
trailer bytes = (sum bytes % 2 ^ 16 / 256) ∷ (sum bytes % 256) ∷ []

abbrev pub frame : ℕ → ℕ → Bytes → Bytes
frame cmd cmd_ex payload = body cmd cmd_ex payload ++ trailer (body cmd cmd_ex payload)
