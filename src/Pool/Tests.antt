-- ===== src/Pool/Tests.antt =====
-- A pool of one node, and a pool that is full.
use ccc_upgrade.Base.{ℕ, ◌≤◌, ◌≡◌, refl, true, false, none, some, List, [], ◌∷◌, arith}
use ccc_upgrade.Base.Bytes.{ok}
use ccc_upgrade.Base.Int.{pos}
use ccc_upgrade.Packet.{Packet, type_normal}
use ccc_upgrade.Pool.{
  Heap, Pool, write, internal_packet_pool_get_from_head, internal_packet_pool_save_from_tail,
  packet_pool_set,
}
use ccc_upgrade.Pool.Ring.{IsRing, node, packets}
use ccc_upgrade.Pool.Take.{get_from_head_refines}
use ccc_upgrade.Pool.Save.{save_from_tail_refused}
use ccc_upgrade.Pool.Trim.{packet_pool_set_refines}

abbrev packet_of : ℕ → Packet
packet_of n = record {
  data_type = type_normal;
  un_pdu = record {
    cmd = 0;
    cmd_ex = 0;
    block = none;
    data_len = pos 0;
    checksum1 = 0;
    checksum2 = 0;
    b_enable = false;
  };
  buffer = none;
  buffer_size = 0;
  data_len = n;
  private_data1 = pos 0;
  private_data2 = pos 0;
  private_data3 = pos 0;
}

abbrev nothing : Heap
nothing a = none

-- A pool of at most one packet, at address 3.
abbrev one_packet : Pool
one_packet = record {
  head = some 3;
  tail = some 3;
  ring_size = 1;
  pkt_count = 1;
  pkt_count_max = 1;
  heap = write nothing 3 (some (node (some (packet_of 1)) (some 3)));
  deleted = [];
}

one_packet-IsRing : IsRing one_packet ((3, packet_of 1) ∷ []) []
unfolding write
one_packet-IsRing = record {
  chain = (refl, tt);
  distinct = (tt, tt);
  at_head = refl;
  at_tail = refl;
  size = refl;
  count = refl;
}

get_from_head_refines_example :
    (pool' : Pool) × (full' : List (ℕ × Packet)) × (spare' : List ℕ)
    × (internal_packet_pool_get_from_head one_packet ≡ ok (some (packet_of 1), pool'))
    × IsRing pool' full' spare'
    × (packets full' ≡ [])
    × (pool'.ring_size ≡ 1)
get_from_head_refines_example =
    get_from_head_refines {pool = one_packet} ((3, packet_of 1) ∷ []) [] one_packet-IsRing

save_from_tail_refused_example :
    internal_packet_pool_save_from_tail none one_packet (some (packet_of 2))
    ≡ ok (false, one_packet)
save_from_tail_refused_example =
    save_from_tail_refused {pool = one_packet} (packet_of 2) ((3, packet_of 1) ∷ [])
      one_packet-IsRing

-- The second packet pushes the first one out.
packet_pool_set_refines_example :
    (pool' : Pool) × (full' : List (ℕ × Packet)) × (spare' : List ℕ) × (packet_pool_set
        (some 4)
        one_packet
        (some (packet_of 2))
      ≡ ok (true, pool'))
    × IsRing pool' full' spare'
    × (packets full' ≡ packet_of 2 ∷ [])
    × (pool'.deleted ≡ packet_of 1 ∷ [])
    × (pool'.pkt_count ≤ pool'.pkt_count_max)
unfolding write
packet_pool_set_refines_example =
    packet_pool_set_refines {pool = one_packet} (some 4) 4 (packet_of 2) ((3, packet_of 1) ∷ []) []
      one_packet-IsRing refl refl (omega arith) (omega arith)
