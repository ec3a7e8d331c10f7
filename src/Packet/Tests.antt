-- ===== src/Packet/Tests.antt =====
-- A packet whose buffer has to grow.
use ccc_upgrade.Base.{ℕ, false, Option, none, some, [], ◌∷◌, replicate, length-replicate}
use ccc_upgrade.Base.Bytes.{Bytes}
use ccc_upgrade.Base.Int.{pos}
use ccc_upgrade.Protocol.{Pdu}
use ccc_upgrade.Packet.{Packet, type_pdu}
use ccc_upgrade.Packet.Laws.{IsMalloc}

abbrev zeros : ℕ → Option Bytes
zeros n = some (replicate n 0)

zeros-IsMalloc : IsMalloc zeros
zeros-IsMalloc = λ n. length-replicate {0} n 0

abbrev empty_pdu : Pdu
empty_pdu = record {
  cmd = 0;
  cmd_ex = 0;
  block = none;
  data_len = pos 0;
  checksum1 = 0;
  checksum2 = 0;
  b_enable = false;
}

abbrev small_packet : Packet
small_packet = record {
  data_type = type_pdu;
  un_pdu = empty_pdu;
  buffer = some (8 ∷ []);
  buffer_size = 1;
  data_len = 0;
  private_data1 = pos 0;
  private_data2 = pos 0;
  private_data3 = pos 0;
}
