-- ===== src/Protocol.antt =====
-- src/protocol/protocol_core.c: the packets of the wire protocol, built and parsed.
pub mod Frame
pub mod Create
pub mod Parse
mod Tests
use ccc_upgrade.Base.{
  ℕ, zero, suc, ◌+◌, ◌-◌, ◌/◌, ◌%◌, ◌^◌, Bool, true, ◌&&◌, Option, none, some, [], ◌∷◌, ltb, leb,
  ◌==◌, if◌then◌else◌, length, get_or, take, drop,
}
use ccc_upgrade.Base.Int.{ℤ, pos, negsuc, ltb_ℤ, signed32}
use ccc_upgrade.Base.Bytes.{Bytes, Run, ok, fault, ◌>>=◌, store, store_at, load}
use ccc_upgrade.Util.Words.{four_bytes_to_int, split_four}

abbrev pub protocol_header : ℕ
protocol_header = 0x7e

abbrev pub protocol_seg_data_len : ℕ
protocol_seg_data_len = 4

abbrev pub protocol_seg_checksum_len : ℕ
protocol_seg_checksum_len = 2

-- `PDU`. The field `block` is the memory that the pointer `data` addresses, NULL as `none`.
pub record Pdu : Type 0 where
  pub cmd : ℕ
  pub cmd_ex : ℕ
  pub block : Option Bytes
  pub data_len : ℤ
  pub checksum1 : ℕ
  pub checksum2 : ℕ
  pub b_enable : Bool

-- `size` and the four bytes at `data`; NULL is `none`.
unfoldable pub calcu_data_length : Option Bytes → ℤ → ℤ
calcu_data_length none size = pos 0
calcu_data_length (some data_) size =
    if ltb_ℤ size (pos 4) then pos 0 else four_bytes_to_int (some data_) size

-- The loop of `calcu_checksum`, with `k` rounds left; the sum is an `unsigned int`.
unfoldable pub checksum_loop : ℕ → Bytes → ℕ → ℕ
checksum_loop zero data_ result = result
checksum_loop (suc k) [] result = result
checksum_loop (suc k) (b ∷ bs) result = checksum_loop k bs ((result + b) % 2 ^ 32)

unfoldable pub calcu_checksum : Option Bytes → ℤ → ℕ
calcu_checksum none size = 0
calcu_checksum (some data_) (negsuc n) = 0
calcu_checksum (some data_) (pos n) = checksum_loop n data_ 0 % 2 ^ 16

-- Header byte, command, extended command and length: the seven bytes before the payload.
abbrev pub prologue : ℕ → ℕ → ℕ → Bytes
prologue cmd cmd_ex data_len = protocol_header ∷ cmd ∷ cmd_ex ∷ split_four data_len

-- `assemble_protocol_packet` writes a PDU whose length is not negative, and returns the buffer and
-- `*size`; with a negative length its `memcpy` is given a huge size.
pub assemble_pdu : ℤ → Pdu → Option Bytes → Run (Option Bytes × ℤ)
assemble_pdu (negsuc n) pdu out_buffer = fault
assemble_pdu (pos n) pdu out_buffer = do
  out ← store_at 0 (prologue pdu.cmd pdu.cmd_ex n) out_buffer
  payload ← elim pdu.block [ none ↦ fault | some block ↦ load n block ]
  out ← store_at 7 payload out
  out ← store_at (n + 7) (pdu.checksum1 ∷ pdu.checksum2 ∷ []) out
  ok (out, pos (n + 9))

pub assemble_protocol_packet : Pdu → Option Bytes → Run (Option Bytes × ℤ)
assemble_protocol_packet pdu out_buffer = assemble_pdu pdu.data_len pdu out_buffer

-- What `create_protocol_packet` reads of `data`: nothing if it is NULL.
abbrev pub payload_len : Option Bytes → ℕ → ℕ
payload_len none data_len = 0
payload_len (some data_) data_len = data_len

abbrev pub payload_bytes : Option Bytes → ℕ → Run Bytes
payload_bytes none data_len = ok []
payload_bytes (some data_) data_len = load data_len data_

-- `create_protocol_packet` after its check of the buffer: `n` is the length that is sent, and the
-- result and `out_buffer` come back. The sums are 32 bits wide.
pub fill_packet : ℕ → ℕ → ℕ → Bytes → Bytes → Run (ℕ × Bytes)
fill_packet cmd cmd_ex n payload out = do
  out ← store 0 (prologue cmd cmd_ex n) out
  out ← store 7 payload out
  let result = (7 + n) % 2 ^ 32
  let checksum = calcu_checksum (some out) (signed32 result)
  out ← store result ((checksum / 2 ^ 8 % 256) ∷ (checksum % 256) ∷ []) out
  ok ((result + 2) % 2 ^ 32, out)

pub create_protocol_packet : ℕ → ℕ → Option Bytes → ℕ → Option Bytes → ℕ → Run (ℕ × Option Bytes)
create_protocol_packet cmd cmd_ex data_ data_len none buffer_size = ok (0, none)
create_protocol_packet cmd cmd_ex data_ data_len (some out_buffer) buffer_size =
    if leb buffer_size 7 then ok (0, some out_buffer) else do
      payload ← payload_bytes data_ data_len
      (result, out) ← fill_packet cmd cmd_ex (payload_len data_ data_len) payload out_buffer
      ok (result, some out)

-- `memchr`: the offset of the first byte `c`.
unfoldable pub memchr : ℕ → Bytes → Option ℕ
memchr c [] = none
memchr c (b ∷ bs) =
    if b == c then some 0 else elim (memchr c bs) [ none ↦ none | some i ↦ some (suc i) ]

-- The steps of `parse_packet2` behind the header byte. `start` is the input from `p_start` on, so
-- its length is `data_len` less `discard_len`.
module _ (discard_len : ℕ) (start : Bytes) where
  -- valid data of length `n` is in `pdu`; `remain_len` bytes follow it
  unfoldable pub parse_checksum : ℕ → Pdu → Run (ℕ × Pdu)
  parse_checksum n pdu =
      let remain_len = length start - 7 - n in
      if ltb remain_len protocol_seg_checksum_len
      then ok (discard_len, pdu)
      else let checksum = calcu_checksum (some start) (pos (1 + 2 + protocol_seg_data_len + n)) in
        let checksum1 = checksum / 2 ^ 8 % 256 in
        let checksum2 = checksum % 256 in
        if checksum1 == get_or start (7 + n) 0 && checksum2 == get_or start (8 + n) 0
        then ok (
          discard_len + length start - (remain_len - protocol_seg_checksum_len),
          record pdu { checksum1 = checksum1; checksum2 = checksum2; b_enable = true },
        )
        else ok (discard_len + 1, record pdu { checksum1 = checksum1; checksum2 = checksum2 })

  -- A negative length passes both signed tests, and `memcpy` takes it for a huge `size_t`.
  unfoldable pub parse_data : ℤ → Pdu → Run (ℕ × Pdu)
  parse_data (negsuc k) pdu = fault
  parse_data (pos n) pdu =
      if ltb 0xFFFFF n
      then ok (discard_len + 1, pdu)
      else if leb (length start - 7) n
      then ok (discard_len, record pdu { data_len = pos n })
      else do
        block ← store_at 0 (take n (drop 7 start)) pdu.block
        parse_checksum n (record pdu { data_len = pos n; block = block })

  unfoldable pub parse_header : Pdu → Run (ℕ × Pdu)
  parse_header pdu =
      if leb (length start) 1
      then ok (discard_len, pdu)
      else if leb (length start - 1) 2
      then ok (discard_len, pdu)
      else let pdu' = record pdu { cmd = get_or start 1 0; cmd_ex = get_or start 2 0 } in
        if leb (length start - 3) protocol_seg_data_len
        then ok (discard_len, pdu')
        else parse_data (calcu_data_length (some (drop 3 start)) (pos protocol_seg_data_len)) pdu'

-- The input is the view of `data_len` bytes at `in_buffer`; NULL is the empty view, for which the
-- code returns 0 too. The result is the number of bytes used, and the PDU as the call leaves it.
unfoldable pub parse_packet2 : Bytes → Pdu → Run (ℕ × Pdu)
parse_packet2 [] pdu = ok (0, pdu)
parse_packet2 (b ∷ bs) pdu = elim (memchr protocol_header (b ∷ bs)) [
  | none ↦ ok (length (b ∷ bs), pdu)
  | some discard_len ↦ parse_header discard_len (drop discard_len (b ∷ bs)) pdu
]
