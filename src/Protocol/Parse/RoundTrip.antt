-- ===== src/Protocol/Parse/RoundTrip.antt =====
-- `parse_packet2` on a frame that the wire format describes, at any place of the input.
use ccc_upgrade.Base.{
  ℕ, zero, suc, ◌+◌, ◌/◌, ◌%◌, ◌^◌, ◌≤◌, ◌<◌, ◌≡◌, refl, ap, ap₂, ◌∙◌, ◌≢◌, true, some, [], ◌∷◌,
  ◌++◌, append_assoc, arith, length, get_or, take, drop, All, length-append, length-take,
  take-append_left, drop-append_left,
}
use ccc_upgrade.Base.Int.{pos, signed32}
use ccc_upgrade.Base.Bytes.{Bytes, ok}
use ccc_upgrade.Util.Words.{split_four, four_bytes_to_int}
use ccc_upgrade.Util.Words.Laws.{join-split_four, signed32_small}
use ccc_upgrade.Protocol.{
  Pdu, calcu_checksum, calcu_data_length, parse_checksum, parse_data, parse_header, parse_packet2,
  create_protocol_packet,
}
use ccc_upgrade.Protocol.Frame.{sum, body, trailer, frame}
use ccc_upgrade.Protocol.Create.{calcu_checksum-sum, length-frame, create_protocol_packet-frame}
use ccc_upgrade.Protocol.Parse.{
  parse_packet2-some, parse_header-data, parse_data-checksum, parse_checksum-match, memchr-append,
}

pub calcu_data_length-split :
    (n : ℕ) (rest : Bytes)
    → n < 2 ^ 31
    → calcu_data_length (some (split_four n ++ rest)) (pos 4) ≡ pos n
unfolding calcu_data_length four_bytes_to_int
calcu_data_length-split n rest h =
    ap signed32 (join-split_four n rest (omega arith)) ∙ signed32_small n h

pub get_or-append :
    (xs ys : Bytes) (i j : ℕ) → j ≡ length xs + i → get_or (xs ++ ys) j 0 ≡ get_or ys i 0
get_or-append [] ys i j e = ap (λ k. get_or ys k 0) (omega arith)
get_or-append (x ∷ xs) ys i zero e = absurd (omega arith)
get_or-append (x ∷ xs) ys i (suc j) e = get_or-append xs ys i j (omega arith)

-- The PDU that a frame is read into: `data_len` bytes are copied to the front of its block.
abbrev pub filled : Pdu → ℕ → ℕ → Bytes → Bytes → Pdu
filled pdu cmd cmd_ex payload block = record pdu {
  cmd = cmd;
  cmd_ex = cmd_ex;
  block = some (payload ++ drop (length payload) block);
  data_len = pos (length payload);
  checksum1 = sum (body cmd cmd_ex payload) % 2 ^ 16 / 256;
  checksum2 = sum (body cmd cmd_ex payload) % 256;
  b_enable = true;
}

module _ (cmd cmd_ex : ℕ) (payload rest : Bytes) where
  high_byte :
      get_or (frame cmd cmd_ex payload ++ rest) (7 + length payload) 0
      ≡ sum (body cmd cmd_ex payload) % 2 ^ 16 / 256
  high_byte =
      ap (λ t. get_or t (7 + length payload) 0)
        (append_assoc (body cmd cmd_ex payload) (trailer (body cmd cmd_ex payload)) rest)
      ∙ get_or-append (body cmd cmd_ex payload) (trailer (body cmd cmd_ex payload) ++ rest) 0
          (7 + length payload) (omega arith)

  low_byte :
      get_or (frame cmd cmd_ex payload ++ rest) (8 + length payload) 0
      ≡ sum (body cmd cmd_ex payload) % 256
  low_byte =
      ap (λ t. get_or t (8 + length payload) 0)
        (append_assoc (body cmd cmd_ex payload) (trailer (body cmd cmd_ex payload)) rest)
      ∙ get_or-append (body cmd cmd_ex payload) (trailer (body cmd cmd_ex payload) ++ rest) 1
          (8 + length payload) (omega arith)

  frame_checksum :
      calcu_checksum (some (frame cmd cmd_ex payload ++ rest)) (pos (7 + length payload))
      ≡ sum (body cmd cmd_ex payload) % 2 ^ 16
  frame_checksum =
      ap (λ t. calcu_checksum (some t) (pos (7 + length payload)))
        (append_assoc (body cmd cmd_ex payload) (trailer (body cmd cmd_ex payload)) rest)
      ∙ calcu_checksum-sum (body cmd cmd_ex payload) (trailer (body cmd cmd_ex payload) ++ rest)
          (7 + length payload) (omega arith)

  pub length-frame-append :
      length (frame cmd cmd_ex payload ++ rest) ≡ 9 + length payload + length rest
  length-frame-append =
      omega
        (arith, length-append {0} (frame cmd cmd_ex payload) rest, length-frame cmd cmd_ex payload)

  pub payload_bytes_lem :
      take (length payload) (drop 7 (frame cmd cmd_ex payload ++ rest)) ≡ payload
  payload_bytes_lem =
      ap (take (length payload)) (append_assoc payload (trailer (body cmd cmd_ex payload)) rest)
      ∙ take-append_left payload (trailer (body cmd cmd_ex payload) ++ rest) (length payload) refl

  pub parse_header-frame :
      (d : ℕ) (pdu : Pdu) (block : Bytes)
      → length payload ≤ 0xFFFFF
      → pdu.block ≡ some block
      → length payload ≤ length block
      → parse_header d (frame cmd cmd_ex payload ++ rest) pdu
        ≡ ok (d + (9 + length payload), filled pdu cmd cmd_ex payload block)
  parse_header-frame d pdu block small hb room =
      let start : Bytes = frame cmd cmd_ex payload ++ rest in
      let pdu1 : Pdu = record pdu { cmd = cmd; cmd_ex = cmd_ex } in
      let pdu2 : Pdu = record pdu1 {
        data_len = pos (length payload);
        block = some (payload ++ drop (length payload) block);
      } in
      parse_header-data d start pdu (omega (arith, length-frame-append))
      ∙ ap (λ z. parse_data d start z pdu1)
          (calcu_data_length-split (length payload)
            ((payload ++ trailer (body cmd cmd_ex payload)) ++ rest) (omega arith))
      ∙ parse_data-checksum d start pdu1 (length payload) block small
          (omega (arith, length-frame-append)) hb room
      ∙ ap
          (λ t. parse_checksum d start (length payload) (record pdu1 {
            data_len = pos (length payload);
            block = some (t ++ drop (length payload) block);
          }))
          payload_bytes_lem
      ∙ parse_checksum-match d start pdu2 (length payload) (omega (arith, length-frame-append))
          (omega (arith, frame_checksum, high_byte)) (omega (arith, frame_checksum, low_byte))
      ∙ ap₂
          (λ h l. ok (
            d + (9 + length payload),
            record pdu2 { checksum1 = h; checksum2 = l; b_enable = true },
          ))
          high_byte low_byte

-- A frame behind any bytes that are no header byte, and before any rest: `parse_packet2` uses up the
-- bytes in front and the frame, copies the payload to the front of the PDU's block, sets the other
-- fields, and enables the PDU. The payload is at most 0xFFFFF bytes and fits into the block.
pub parse_packet2-frame :
    (cmd cmd_ex : ℕ) (garbage payload rest block : Bytes) (pdu : Pdu)
    → All (λ b. b ≢ 0x7e) garbage
    → length payload ≤ 0xFFFFF
    → pdu.block ≡ some block
    → length payload ≤ length block
    → parse_packet2 (garbage ++ (frame cmd cmd_ex payload ++ rest)) pdu
      ≡ ok (length garbage + (9 + length payload), filled pdu cmd cmd_ex payload block)
parse_packet2-frame cmd cmd_ex garbage payload rest block pdu clean small hb room =
    parse_packet2-some pdu (garbage ++ (frame cmd cmd_ex payload ++ rest)) (length garbage)
      (memchr-append 0x7e garbage _ clean)
    ∙ ap (λ t. parse_header (length garbage) t pdu)
        (drop-append_left garbage (frame cmd cmd_ex payload ++ rest) (length garbage) refl)
    ∙ parse_header-frame cmd cmd_ex payload rest (length garbage) pdu block small hb room

-- What `create_protocol_packet` writes, `parse_packet2` reads back, whatever follows it: the call
-- reports the packet's length, and parsing uses up exactly that and yields the same command and
-- payload.
pub parse_packet2-create :
    (cmd cmd_ex data_len buffer_size : ℕ) (data_ out_buffer rest block : Bytes) (pdu : Pdu)
    → data_len ≤ length data_
    → data_len ≤ 0xFFFFF
    → 7 < buffer_size
    → data_len + 9 ≤ length out_buffer
    → pdu.block ≡ some block
    → data_len ≤ length block
    → (out : Bytes) × (create_protocol_packet cmd cmd_ex
          (some data_)
          data_len
          (some out_buffer)
          buffer_size
        ≡ ok (data_len + 9, some out))
      × (parse_packet2 (take (data_len + 9) out ++ rest) pdu
          ≡ ok (data_len + 9, filled pdu cmd cmd_ex (take data_len data_) block))
parse_packet2-create cmd cmd_ex n size data_ out rest block pdu hd hn hs ho hb room =
    let payload : Bytes = take n data_ in
    let e : length payload ≡ n = omega (arith, length-take {0} n data_) in
    (
      frame cmd cmd_ex payload ++ drop (n + 9) out,
      create_protocol_packet-frame cmd cmd_ex n size data_ out hd (omega arith) hs ho,
      ap (λ t. parse_packet2 (t ++ rest) pdu)
            (take-append_left (frame cmd cmd_ex payload) (drop (n + 9) out) (n + 9)
              (omega (arith, length-frame cmd cmd_ex payload)))
          ∙ parse_packet2-frame cmd cmd_ex [] payload rest block pdu tt (omega arith) hb
              (omega arith)
          ∙ ap (λ k. ok (k, filled pdu cmd cmd_ex payload block)) (omega arith),
    )
