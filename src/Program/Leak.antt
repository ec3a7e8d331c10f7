-- ===== src/Program/Leak.antt =====
-- What a datagram of which nothing can be used costs the pool.
use ccc_upgrade.Base.{ℕ, ◌≡◌, refl, false, Option, some, List, [], ◌∷◌, ◌++◌}
use ccc_upgrade.Base.Bytes.{Bytes, ok}
use ccc_upgrade.Base.Int.{ℤ, pos}
use ccc_upgrade.Protocol.{Pdu, parse_packet2}
use ccc_upgrade.Packet.{Packet, ccc_packet_malloc}
use ccc_upgrade.Pool.{point_pdu, packet_pool_get_pdu_buf, packet_pool_get_buffer}
use ccc_upgrade.Pool.Ring.{IsRing}
use ccc_upgrade.Pool.Take.{get_from_head-IsRing}
use ccc_upgrade.Adapter.Stream.Bounds.{process_udp_data_leak}
use ccc_upgrade.Program.{Machine, World, services, callback_by_udp_server}

-- A datagram of which nothing can be used, where the idle packet that comes first in the pool has a
-- buffer already: the datagram is over with that packet gone from the pool, which keeps the others, and
-- no packet has been freed. The table of connections and the upload are as they were.
pub datagram-leak :
    {X : Type 0} (m : Machine X) (dir : Option Bytes) (handle : ℤ) (buffer : Bytes) (w : World X)
    (a : ℕ) (p q : Packet) (pdu : Pdu) (full : List (ℕ × Packet)) (spare : List ℕ)
    → IsRing w.pool ((a, p) ∷ full) spare
    → point_pdu (ccc_packet_malloc (m.memory w.outside).0.block (some p) (pos 4096)).1 ≡ some q
    → parse_packet2 buffer (record q.un_pdu { b_enable = false }) ≡ ok (0, pdu)
    → (w' : World X) × (callback_by_udp_server m dir handle buffer w ≡ ok w')
      × IsRing w'.pool full (spare ++ a ∷ [])
      × (w'.pool.deleted ≡ w.pool.deleted)
      × (w'.clients ≡ w.clients)
      × (w'.upload ≡ w.upload)
unfolding callback_by_udp_server packet_pool_get_pdu_buf packet_pool_get_buffer
datagram-leak m dir handle buffer w a p q pdu full spare r eq parsed =
    let (pool', e, r', _, ed) = get_from_head-IsRing {pool = w.pool} a p full spare r in
    let w' : World _ = record w { pool = pool'; outside = (m.memory w.outside).1 } in
    let taken : (services m).packet_pool_get_pdu_buf (pos 4096) w ≡ ok (some q, w') =
      rw (e, eq) refl in
    (
      w',
      process_udp_data_leak (services m) dir handle buffer w w' q pdu taken parsed,
      r',
      ed,
      refl,
      refl,
    )
