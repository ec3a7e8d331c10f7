-- ===== src/Packet.antt =====
-- src/packet_pool/ccc_packet.c: packets with a buffer that grows on demand.
-- `mem` is what `malloc` answers for a size: NULL as `none`, or a block of any content.
pub mod Laws
mod Tests
use ccc_upgrade.Base.{ℕ, zero, suc, Bool, true, false, Option, none, some, ltb, if◌then◌else◌}
use ccc_upgrade.Base.Int.{ℤ, pos, negsuc}
use ccc_upgrade.Base.Bytes.{Bytes, Run, ok, ◌>>=◌, store_at, load}
use ccc_upgrade.Protocol.{Pdu}

pub data DataType : Type 0 where
  type_normal type_pdu : DataType

-- `CCCPACKET`. A packet belongs to whoever holds it, so a pointer to one is its value.
pub record Packet : Type 0 where
  pub data_type : DataType
  pub un_pdu : Pdu
  pub buffer : Option Bytes
  pub buffer_size : ℕ
  pub data_len : ℕ
  pub private_data1 : ℤ
  pub private_data2 : ℤ
  pub private_data3 : ℤ

-- `buffer_size` is positive here. A block that is too small is freed before the new one is asked for.
unfoldable pub grow_buffer : (ℕ → Option Bytes) → Packet → ℕ → Bool × Packet
grow_buffer mem p n = elim (mem n) [
  | none ↦ (false, record p { buffer = none })
  | some block ↦ (true, record p { buffer = some block; buffer_size = n })
]

abbrev needs_buffer : Packet → ℕ → Bool
needs_buffer p n = elim p.buffer [ none ↦ true | some block ↦ ltb p.buffer_size n ]

unfoldable pub cccpacket_check_buffer :
    (ℕ → Option Bytes) → Option Packet → ℤ → Bool × Option Packet
cccpacket_check_buffer mem none buffer_size = (false, none)
cccpacket_check_buffer mem (some p) (negsuc n) = (false, some p)
cccpacket_check_buffer mem (some p) (pos zero) = (false, some p)
cccpacket_check_buffer mem (some p) (pos (suc n)) =
    if needs_buffer p (suc n)
    then (let (done, p') = grow_buffer mem p (suc n) in (done, some p'))
    else (true, some p)

-- The status, and the packet behind the call.
pub internal_cccpacket_save_data : Option Packet → Option Bytes → ℤ → Run (Bool × Option Packet)
internal_cccpacket_save_data none buffer data_len = ok (false, none)
internal_cccpacket_save_data (some p) none data_len = ok (false, some p)
internal_cccpacket_save_data (some p) (some buffer) (negsuc n) = ok (false, some p)
internal_cccpacket_save_data (some p) (some buffer) (pos zero) = ok (false, some p)
internal_cccpacket_save_data (some p) (some buffer) (pos (suc n)) = do
  let data_len : ℕ = if ltb p.buffer_size (suc n) then p.buffer_size else suc n
  src ← load data_len buffer
  block ← store_at 0 src p.buffer
  ok (true, some (record p { data_len = data_len; buffer = block }))

-- Where the data was saved, the fields that the caller sets then.
pub saved_as : (Packet → Packet) → Bool × Option Packet → Bool × Option Packet
saved_as fill (true, some p) = (true, some (fill p))
saved_as fill (true, none) = (true, none)
saved_as fill (false, q) = (false, q)

-- What `ccc_packet_save_data` and `ccc_packet_save_data_pdu` have in common: `data_len` bytes at
-- `data_` are saved into a buffer that was made large enough.
pub save_checked :
    (ℕ → Option Bytes)
    → (Packet → Packet)
    → Option Packet
    → Option Bytes
    → ℤ
    → Run (Bool × Option Packet)
save_checked mem fill packet data_ data_len =
    let (checked, packet1) = cccpacket_check_buffer mem packet data_len in
    if checked
    then (do
      result ← internal_cccpacket_save_data packet1 data_ data_len
      ok (saved_as fill result))
    else ok (false, packet1)

pub ccc_packet_save_data :
    (ℕ → Option Bytes) → Option Packet → Option Bytes → ℤ → Run (Bool × Option Packet)
ccc_packet_save_data mem = save_checked mem (λ p. record p { data_type = type_normal })

-- `un.pdu` is given the packet's buffer and the fields of `pdu`; its `b_enable` stays as it was.
abbrev pub copy_pdu : Pdu → Packet → Packet
copy_pdu pdu p = record p {
  data_type = type_pdu;
  un_pdu = record pdu { block = p.buffer; data_len = pos p.data_len; b_enable = p.un_pdu.b_enable };
}

pub ccc_packet_save_data_pdu : (ℕ → Option Bytes) → Option Packet → Pdu → Run (Bool × Option Packet)
ccc_packet_save_data_pdu mem packet pdu =
    save_checked mem (copy_pdu pdu) packet pdu.block pdu.data_len

abbrev pub ccc_packet_malloc : (ℕ → Option Bytes) → Option Packet → ℤ → Bool × Option Packet
ccc_packet_malloc = cccpacket_check_buffer

-- `ccc_packet_create`: `fresh` is the memory that `malloc` returns, uninitialised.
abbrev pub ccc_packet_create : Option Packet → Option Packet
ccc_packet_create none = none
ccc_packet_create (some fresh) =
    some (record fresh { buffer = none; buffer_size = 0; data_len = 0 })
