-- ===== src/Pool/Keeps.antt =====
-- Every call of the pool is defined on a ring that is not too long, and leaves one, whether or not
-- `malloc` delivers.
use ccc_upgrade.Base.{
  All-append, All-drop, subst, All, ℕ, ◌+◌, ◌≤◌, ◌≡◌, refl, sym, ap, ◌∙◌, ◌⊎◌, inl, inr, Bool, true,
  false, Option, none, some, List, [], ◌∷◌, ◌++◌, arith, ◌==◌, if◌then◌else◌, length, length-append,
}
use ccc_upgrade.Base.Bytes.{ok}
use ccc_upgrade.Base.Int.{ℤ, pos, ltb_ℤ}
use ccc_upgrade.Packet.{Packet, ccc_packet_malloc}
use ccc_upgrade.Pool.{
  Heap, Pool, Memory, internal_packet_pool_save_from_tail, trim, packet_pool_set, or_create,
  packet_pool_get_buffer, point_pdu, packet_pool_get_pdu_buf, internal_packet_pool_get_from_head,
}
use ccc_upgrade.Pool.Ring.{IsRing, packets-append_one, packets, length-packets}
use ccc_upgrade.Pool.Save.{put_behind_tail-IsRing, save_from_tail-IsRing, save_from_tail_refused}
use ccc_upgrade.Pool.Take.{get_from_head-IsRing, get_from_head_empty}
use ccc_upgrade.Pool.Trim.{trim-IsRing}

-- A ring of at most `pkt_count_max` packets.
pub record IsSound (pool : Pool) : Type 0 where
  pub full : List (ℕ × Packet)
  pub spare : List ℕ
  pub ring : IsRing pool full spare
  pub bounded : length full ≤ pool.pkt_count_max
  pub room : 1 ≤ pool.pkt_count_max

-- `malloc` gives no address that is in use.
abbrev pub IsFresh : Option ℕ → Heap → Type 0
IsFresh fresh heap = (x : ℕ) → fresh ≡ some x → heap x ≡ none

-- The ring after a packet was saved.
record IsSaved (p : Packet) (pool pool' : Pool) (full : List (ℕ × Packet)) : Type 0 where
  full' : List (ℕ × Packet)
  spare' : List ℕ
  ring : IsRing pool' full' spare'
  longer : length full' ≡ length full + 1
  held : packets full' ≡ packets full ++ p ∷ []
  same_max : pool'.pkt_count_max ≡ pool.pkt_count_max

save_or_refuse :
    {pool : Pool} (fresh : Option ℕ) (p : Packet) (full : List (ℕ × Packet)) (spare : List ℕ)
    → IsRing pool full spare
    → IsFresh fresh pool.heap
    → (internal_packet_pool_save_from_tail fresh pool (some p) ≡ ok (false, pool))
      ⊎ ((pool' : Pool) × (internal_packet_pool_save_from_tail fresh pool (some p)
            ≡ ok (true, pool'))
          × IsSaved p pool pool' full)
unfolding internal_packet_pool_save_from_tail
save_or_refuse none p full [] r free = inl (save_from_tail_refused p full r)
save_or_refuse {pool} none p full (s ∷ ys) r free =
    let (pool', e, r', em, _) = put_behind_tail-IsRing p full s ys r in
    let roomy : (pool.ring_size == pool.pkt_count) ≡ false = ground (arith, r.size, r.count) in
    inr (
      pool',
      rw roomy e,
      record {
        full' = full ++ (s, p) ∷ [];
        spare' = ys;
        ring = r';
        longer = length-append full ((s, p) ∷ []);
        held = packets-append_one full s p;
        same_max = em;
      },
    )
save_or_refuse (some x) p full spare r free =
    let (pool', full', spare', e, r', ep, em, _) =
      save_from_tail-IsRing (some x) x p full spare r refl (free x refl) in
    inr (
      pool',
      e,
      record {
        full' = full';
        spare' = spare';
        ring = r';
        longer =
            sym (length-packets full')
            ∙ ap length ep
            ∙ length-append (packets full) (p ∷ [])
            ∙ ap (λ n. n + 1) (length-packets full);
        held = ep;
        same_max = em;
      },
    )

-- Putting a packet into a sound pool is defined and leaves a sound pool, also where there is no memory
-- for a node. What holds of the packets in the pool and of the new one holds of the packets then.
pub packet_pool_set-kept :
    {pool : Pool} (fresh : Option ℕ) (p : Packet) (v : IsSound pool)
    → IsFresh fresh pool.heap
    → (done : Bool) × (pool' : Pool) × (packet_pool_set fresh pool (some p) ≡ ok (done, pool'))
      × (v' : IsSound pool') × ((Q : Packet → Type 0)
          → All Q (packets v.full)
          → Q p
          → All Q (packets v'.full))
unfolding packet_pool_set trim
packet_pool_set-kept {pool} fresh p v free =
    elim (save_or_refuse fresh p v.full v.spare v.ring free) [
      | inl refused ↦ (false, pool, rw refused refl, v, λ Q old new. old)
      | inr (pool1, saved, kept) ↦
          let (pool', full', spare', e, r', ep, em, _, small) =
            trim-IsRing kept.full' kept.spare' kept.ring (omega (arith, kept.longer))
              (omega (arith, v.room, kept.same_max))
              (omega (arith, v.bounded, kept.longer, kept.same_max)) in
          (
            true,
            pool',
            rw saved e,
            record {
              full = full';
              spare = spare';
              ring = r';
              bounded = omega (arith, r'.count, small);
              room = omega (arith, em, kept.same_max, v.room);
            },
            λ Q old new. subst (All Q) (sym ep) (
                All-drop Q _ (packets kept.full') (
                  subst (All Q) (sym kept.held)
                    (All-append Q (packets v.full) (p ∷ []) old (new, tt)))),
          )
    ]

pub packet_pool_set-IsSound :
    {pool : Pool} (fresh : Option ℕ) (p : Packet)
    → IsSound pool
    → IsFresh fresh pool.heap
    → (done : Bool) × (pool' : Pool) × (packet_pool_set fresh pool (some p) ≡ ok (done, pool'))
      × IsSound pool'
packet_pool_set-IsSound fresh p v free =
    let (done, pool', e, v', _) = packet_pool_set-kept fresh p v free in (done, pool', e, v')

take_from :
    {pool : Pool}
    → IsSound pool
    → (result : Option Packet) × (pool' : Pool) × (internal_packet_pool_get_from_head pool
        ≡ ok (result, pool'))
      × IsSound pool'
take_from v = from_list v.full v.spare v.ring v.bounded v.room
  where
    from_list :
        {pool : Pool} (full : List (ℕ × Packet)) (spare : List ℕ)
        → IsRing pool full spare
        → length full ≤ pool.pkt_count_max
        → 1 ≤ pool.pkt_count_max
        → (result : Option Packet) × (pool' : Pool) × (internal_packet_pool_get_from_head pool
            ≡ ok (result, pool'))
          × IsSound pool'
    from_list {pool} [] spare r h k = (
      none,
      pool,
      get_from_head_empty spare r,
      record { full = []; spare = spare; ring = r; bounded = h; room = k },
    )
    from_list ((a, p) ∷ full) spare r h k =
        let (pool', e, r', em, _) = get_from_head-IsRing a p full spare r in
        (
          some p,
          pool',
          e,
          record {
            full = full;
            spare = spare ++ a ∷ [];
            ring = r';
            bounded = omega (arith, h, em);
            room = omega (arith, k, em);
          },
        )

-- The packet that comes, with a buffer if one is wanted.
abbrev buffered : Memory → ℤ → Option Packet → Option Packet
buffered memory size result =
    if ltb_ℤ (pos 0) size
    then (ccc_packet_malloc memory.block (or_create memory.packet result) size).1
    else or_create memory.packet result

-- Taking a packet, with a buffer of any size, is defined on a sound pool and leaves a sound pool, also
-- where there is no memory for a packet or for its buffer.
pub packet_pool_get_buffer-IsSound :
    {pool : Pool} (memory : Memory) (size : ℤ)
    → IsSound pool
    → (result : Option Packet) × (pool' : Pool) × (packet_pool_get_buffer memory pool size
        ≡ ok (result, pool'))
      × IsSound pool'
unfolding packet_pool_get_buffer
packet_pool_get_buffer-IsSound memory size v =
    let (result, pool', e, v') = take_from v in (buffered memory size result, pool', rw e refl, v')

pub packet_pool_get_pdu_buf-IsSound :
    {pool : Pool} (memory : Memory) (size : ℤ)
    → IsSound pool
    → (result : Option Packet) × (pool' : Pool) × (packet_pool_get_pdu_buf memory pool size
        ≡ ok (result, pool'))
      × IsSound pool'
unfolding packet_pool_get_pdu_buf
packet_pool_get_pdu_buf-IsSound memory size v =
    let (result, pool', e, v') = packet_pool_get_buffer-IsSound memory size v in
    (point_pdu result, pool', rw e, v')
