-- ===== src/Protocol/Tests.antt =====
-- Runs of the protocol on a small packet: command 0xE1 with two bytes of payload.
use ccc_upgrade.Base.{
  ◌+◌, ◌≡◌, refl, ◌≢◌, inr, true, false, some, [], ◌∷◌, ◌++◌, arith, length, take, drop, replicate,
  All,
}
use ccc_upgrade.Base.Bytes.{Bytes, IsByte, ok, fault, store, store_at}
use ccc_upgrade.Base.Int.{pos}
use ccc_upgrade.Protocol.{
  checksum_loop, calcu_checksum, four_bytes_to_int, calcu_data_length, parse_checksum, parse_data,
  parse_header, memchr, Pdu, create_protocol_packet, parse_packet2,
}
use ccc_upgrade.Util.Words.{four_bytes_to_int, join_four}
use ccc_upgrade.Protocol.Frame.{frame}
use ccc_upgrade.Protocol.Create.{
  create_protocol_packet-frame, create_protocol_packet_overrun, create_protocol_packet_refused,
}
use ccc_upgrade.Protocol.Parse.RoundTrip.{filled, parse_packet2-create}
use ccc_upgrade.Protocol.Parse.Sound.{parse_packet2_sound}
use ccc_upgrade.Protocol.Parse.Safe.{parse_packet2_negative, parse_packet2_overrun}

abbrev payload_two : Bytes
payload_two = 7 ∷ 9 ∷ []

abbrev frame_two : Bytes
frame_two = 0x7e ∷ 0xe1 ∷ 1 ∷ 0 ∷ 0 ∷ 0 ∷ 2 ∷ 7 ∷ 9 ∷ 1 ∷ 0x72 ∷ []

abbrev fresh_pdu : Pdu
fresh_pdu = record {
  cmd = 0;
  cmd_ex = 0;
  block = some (replicate 4 0);
  data_len = pos 0;
  checksum1 = 0;
  checksum2 = 0;
  b_enable = false;
}

abbrev read_pdu : Pdu
read_pdu = record {
  cmd = 0xe1;
  cmd_ex = 1;
  block = some (7 ∷ 9 ∷ 0 ∷ 0 ∷ []);
  data_len = pos 2;
  checksum1 = 1;
  checksum2 = 0x72;
  b_enable = true;
}

frame_two_lem : frame 0xe1 1 payload_two ≡ frame_two
frame_two_lem = refl

-- A byte in front is skipped.
parse_two : parse_packet2 (3 ∷ frame_two) fresh_pdu ≡ ok (12, read_pdu)
unfolding parse_packet2 memchr parse_header parse_data parse_checksum calcu_data_length
    four_bytes_to_int join_four calcu_checksum checksum_loop store_at store
parse_two = refl

create_protocol_packet-frame_example :
    create_protocol_packet 0xe1 1 (some payload_two) 2 (some (replicate 12 0)) 12
    ≡ ok (2 + 9, some (frame 0xe1 1 (take 2 payload_two) ++ drop (2 + 9) (replicate 12 0)))
create_protocol_packet-frame_example =
    create_protocol_packet-frame 0xe1 1 2 12 payload_two (replicate 12 0) (omega arith)
      (omega arith) (omega arith) (omega arith)

create_protocol_packet_overrun_example :
    create_protocol_packet 0xe1 1 (some payload_two) 2 (some (replicate 8 0)) 8 ≡ fault
create_protocol_packet_overrun_example =
    create_protocol_packet_overrun 0xe1 1 2 8 payload_two (replicate 8 0) (omega arith)
      (omega arith) (omega arith) (omega arith)

create_protocol_packet_refused_example :
    create_protocol_packet 0xe1 1 (some payload_two) 2 (some (replicate 12 0)) 7
    ≡ ok (0, some (replicate 12 0))
create_protocol_packet_refused_example =
    create_protocol_packet_refused 0xe1 1 2 7 (some payload_two) (some (replicate 12 0))
      (inr (omega arith))

parse_packet2-create_example :
    (out : Bytes) × (create_protocol_packet 0xe1 1 (some payload_two) 2 (some (replicate 12 0)) 12
      ≡ ok (2 + 9, some out))
    × (parse_packet2 (take (2 + 9) out ++ (5 ∷ [])) fresh_pdu
        ≡ ok (2 + 9, filled fresh_pdu 0xe1 1 (take 2 payload_two) (replicate 4 0)))
parse_packet2-create_example =
    parse_packet2-create 0xe1 1 2 12 payload_two (replicate 12 0) (5 ∷ []) (replicate 4 0) fresh_pdu
      (omega arith) (omega arith) (omega arith) (omega arith) refl (omega arith)

frame_two_bytes : All IsByte (3 ∷ frame_two)
frame_two_bytes = ground arith

parse_packet2_sound_example :
    (garbage : Bytes) × (payload : Bytes) × (rest : Bytes) × (3 ∷ frame_two
      ≡ garbage ++ (frame 0xe1 1 payload ++ rest))
    × All (λ b. b ≢ 0x7e) garbage
    × (12 ≡ length garbage + (9 + length payload))
    × (pos 2 ≡ pos (length payload))
    × (store_at 0 payload (some (replicate 4 0)) ≡ ok (some (7 ∷ 9 ∷ 0 ∷ 0 ∷ [])))
parse_packet2_sound_example =
    parse_packet2_sound (3 ∷ frame_two) fresh_pdu frame_two_bytes refl refl parse_two

parse_packet2_negative_example :
    parse_packet2 ((3 ∷ []) ++ (0x7e ∷ 0xe1 ∷ 1 ∷ 128 ∷ 0 ∷ 0 ∷ 0 ∷ 0 ∷ [])) fresh_pdu ≡ fault
parse_packet2_negative_example =
    parse_packet2_negative (3 ∷ []) [] 0xe1 1 128 0 0 0 0 fresh_pdu ((λ e. omega arith), tt)
      (omega arith) (omega arith) (omega arith) (omega arith) (omega arith)

parse_packet2_overrun_example :
    parse_packet2 ([] ++ (frame 0xe1 1 (1 ∷ 2 ∷ 3 ∷ 4 ∷ 5 ∷ []) ++ [])) fresh_pdu ≡ fault
parse_packet2_overrun_example =
    parse_packet2_overrun 0xe1 1 [] (1 ∷ 2 ∷ 3 ∷ 4 ∷ 5 ∷ []) [] (replicate 4 0) fresh_pdu tt
      (omega arith) refl (omega arith)
