-- ===== src/Program/LeakTests.antt =====
-- A datagram that ends within a packet, where one packet is idle.
use ccc_upgrade.Base.{
  ℕ, ◌≡◌, refl, false, Option, none, some, [], ◌∷◌, ◌++◌, ◌==◌, if◌then◌else◌, replicate,
}
use ccc_upgrade.Base.Bytes.{Bytes, ok}
use ccc_upgrade.Base.Int.{pos}
use ccc_upgrade.Protocol.{parse_packet2, memchr, parse_header}
use ccc_upgrade.Packet.{Packet, cccpacket_check_buffer, grow_buffer}
use ccc_upgrade.Pool.{Node, Pool, idle}
use ccc_upgrade.Pool.Ring.{IsRing}
use ccc_upgrade.Program.{World, callback_by_udp_server}
use ccc_upgrade.Program.Tests.{machine, world, any_packet}
use ccc_upgrade.Program.Leak.{datagram-leak}

abbrev kept_packet : Packet
kept_packet = record any_packet { buffer = some (replicate 4096 0); buffer_size = 4096 }

abbrev one_node : ℕ → Option Node
one_node a = if a == 1 then some (record { pkt_ptr = some kept_packet; next = some 1 }) else none

abbrev one_idle : Pool
one_idle = record (idle one_node) { head = some 1; tail = some 1; ring_size = 1; pkt_count = 1 }

abbrev with_one : World Bytes
with_one = record world { pool = one_idle }

one_idle-IsRing : IsRing with_one.pool ((1, kept_packet) ∷ []) []
one_idle-IsRing = record {
  chain = (refl, tt);
  distinct = (tt, tt);
  at_head = refl;
  at_tail = refl;
  size = refl;
  count = refl;
}

abbrev taken_packet : Packet
taken_packet = record kept_packet {
  un_pdu = record kept_packet.un_pdu { block = kept_packet.buffer };
}

-- A header byte and a command are no packet yet.
parse_part :
    parse_packet2 (0x7e ∷ 1 ∷ []) (record taken_packet.un_pdu { b_enable = false })
    ≡ ok (0, record taken_packet.un_pdu { b_enable = false })
unfolding parse_packet2 memchr parse_header
parse_part = refl

datagram-leak_example :
    (w' : World Bytes) × (callback_by_udp_server machine none (pos 0) (0x7e ∷ 1 ∷ []) with_one
      ≡ ok w')
    × IsRing w'.pool [] ([] ++ 1 ∷ [])
    × (w'.pool.deleted ≡ [])
    × (w'.clients ≡ world.clients)
    × (w'.upload ≡ world.upload)
unfolding cccpacket_check_buffer grow_buffer
datagram-leak_example =
    datagram-leak machine none (pos 0) (0x7e ∷ 1 ∷ []) with_one 1 kept_packet taken_packet
      (record taken_packet.un_pdu { b_enable = false }) [] [] one_idle-IsRing refl parse_part
