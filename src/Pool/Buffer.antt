-- ===== src/Pool/Buffer.antt =====
-- A packet that is taken for a buffer has one that is large enough.
use ccc_upgrade.Base.{
  ℕ, suc, ◌≤◌, ◌≡◌, refl, ap, ◌≢◌, inl, inr, true, Option, none, some, List, [], ◌∷◌, ◌++◌, arith,
  length, All,
}
use ccc_upgrade.Base.Bytes.{Bytes, ok}
use ccc_upgrade.Base.Int.{pos, ltb_ℤ}
use ccc_upgrade.Packet.{Packet, ccc_packet_malloc}
use ccc_upgrade.Packet.Laws.{IsValid, IsMalloc, cccpacket_check_buffer_lem}
use ccc_upgrade.Pool.{Pool, Memory, packet_pool_get_buffer}
use ccc_upgrade.Pool.Ring.{IsRing, packets}
use ccc_upgrade.Pool.Take.{get_from_head-IsRing, get_from_head_empty}

malloc-room :
    (mem : ℕ → Option Bytes) (p : Packet) (n : ℕ)
    → IsMalloc mem
    → IsValid p
    → mem (suc n) ≢ none
    → (q : Packet) × (block : Bytes) × ((ccc_packet_malloc mem (some p) (pos (suc n))).1 ≡ some q)
      × (q.buffer ≡ some block)
      × (suc n ≤ length block)
      × IsValid q
malloc-room mem p n hm v there =
    let (q, done, e, v', outcome) = cccpacket_check_buffer_lem mem p n hm v in
    elim outcome [
      | inl (_, _, failed) ↦ absurd (there failed)
      | inr (block, _, eb, room) ↦ (q, block, ap (λ r. r.1) e, eb, room, v')
    ]

-- Taking a packet for a buffer from a ring of valid packets, where `malloc` can deliver a packet and a
-- block of the size: a valid packet comes, whose buffer has the size or more, and the pool stays a
-- ring of valid packets, which is not longer than before.
pub packet_pool_get_buffer-room :
    {pool : Pool} (memory : Memory) (fresh : Packet) (full : List (ℕ × Packet)) (spare : List ℕ)
    (n : ℕ)
    → IsRing pool full spare
    → All IsValid (packets full)
    → IsMalloc memory.block
    → memory.block (suc n) ≢ none
    → memory.packet ≡ some fresh
    → (p : Packet) × (block : Bytes) × (pool' : Pool) × (full' : List (ℕ × Packet)) × (spare' : List
        ℕ)
      × (packet_pool_get_buffer memory pool (pos (suc n)) ≡ ok (some p, pool'))
      × (p.buffer ≡ some block)
      × (suc n ≤ length block)
      × IsValid p
      × IsRing pool' full' spare'
      × All IsValid (packets full')
      × (length full' ≤ length full)
      × (pool'.pkt_count_max ≡ pool.pkt_count_max)
unfolding packet_pool_get_buffer
packet_pool_get_buffer-room {pool} memory fresh [] spare n r valid hm there ef =
    let made : Packet = record fresh { buffer = none; buffer_size = 0; data_len = 0 } in
    let (q, block, e, eb, room, v) = malloc-room memory.block made n hm tt there in
    let wanted : ltb_ℤ (pos 0) (pos (suc n)) ≡ true = ground arith in
    (
      q,
      block,
      pool,
      [],
      spare,
      rw (get_from_head_empty {pool = pool} spare r, wanted, ef, e),
      eb,
      room,
      v,
      r,
      tt,
      omega arith,
      refl,
    )
packet_pool_get_buffer-room {pool} memory fresh ((a, p) ∷ full) spare n r valid hm there ef =
    let (pool', e1, r', em, _) = get_from_head-IsRing {pool = pool} a p full spare r in
    let (q, block, e, eb, room, v) = malloc-room memory.block p n hm valid.0 there in
    let wanted : ltb_ℤ (pos 0) (pos (suc n)) ≡ true = ground arith in
    (
      q,
      block,
      pool',
      full,
      spare ++ a ∷ [],
      rw (e1, wanted, e),
      eb,
      room,
      v,
      r',
      valid.1,
      omega arith,
      em,
    )
