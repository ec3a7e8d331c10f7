-- ===== src/Pool/Trim.antt =====
-- The pool as a bounded queue: what is put in beyond the limit pushes out the oldest packets, and the
-- nodes that hold nothing are freed then.
use ccc_upgrade.Base.{
  ℕ, zero, suc, ◌+◌, ◌-◌, ◌≤◌, ◌≡◌, refl, sym, ap, ap₂, ◌∙◌, true, Option, none, some, List, [],
  ◌∷◌, ◌++◌, arith, lt→ltb, le→not_ltb, length, take, drop, length-append, length-drop,
}
use ccc_upgrade.Base.Bytes.{ok}
use ccc_upgrade.Packet.{Packet}
use ccc_upgrade.Pool.{Pool, internal_packet_pool_delete, trim, packet_pool_set}
use ccc_upgrade.Pool.Ring.{packets, IsRing, length-packets}
use ccc_upgrade.Pool.Save.{save_from_tail-IsRing}
use ccc_upgrade.Pool.Free.{delete_packets-IsRing, delete_nodes_all, within_drop}
use mathlib.Core.List.{reverse_aux}
use native.Mathlib.Decide.{dec_lt}

reverse_one :
    (k : ℕ) (ps deleted : List Packet)
    → k ≤ 1
    → reverse_aux (take k ps) deleted ≡ take k ps ++ deleted
reverse_one zero ps deleted h = refl
reverse_one (suc zero) [] deleted h = refl
reverse_one (suc zero) (p ∷ ps) deleted h = refl
reverse_one (suc (suc k)) ps deleted h = absurd (omega arith)

-- Trimming a ring that holds at most one packet more than the limit.
pub trim-IsRing :
    {pool : Pool} (full : List (ℕ × Packet)) (spare : List ℕ)
    → IsRing pool full spare
    → 1 ≤ length full
    → 1 ≤ pool.pkt_count_max
    → length full ≤ pool.pkt_count_max + 1
    → (pool' : Pool) × (full' : List (ℕ × Packet)) × (spare' : List ℕ) × (trim (true, pool)
        ≡ ok (true, pool'))
      × IsRing pool' full' spare'
      × (packets full' ≡ drop (length full - pool.pkt_count_max) (packets full))
      × (pool'.pkt_count_max ≡ pool.pkt_count_max)
      × (pool'.deleted ≡ take (length full - pool.pkt_count_max) (packets full) ++ pool.deleted)
      × (pool'.pkt_count ≤ pool'.pkt_count_max)
unfolding trim internal_packet_pool_delete
trim-IsRing {pool} full spare r some_full hm bounded =
    let excess : ℕ = length full - pool.pkt_count_max in
    let (pool1, full1, spare1, e1, r1, ep1, em1, ed1) =
      delete_packets-IsRing pool.pkt_count full spare r (omega (arith, r.count)) in
    let listed : length full1 ≡ length full - excess =
      sym (length-packets full1)
      ∙ ap length ep1
      ∙ length-drop excess (packets full)
      ∙ ap (λ n. n - excess) (length-packets full) in
    elim (dec_lt pool.pkt_count_max (length full)) [
      | no within ↦ (
        pool,
        full,
        spare,
        rw (le→not_ltb pool.pkt_count_max pool.pkt_count (omega (arith, r.count))),
        r,
        within_drop (packets full) (length full) pool.pkt_count_max (omega arith),
        refl,
        ap (λ k. take k (packets full) ++ pool.deleted) {x = 0} {y = excess} (omega arith),
        omega (arith, r.count),
      )
      | yes over ↦
          let (pool', spare', e, r', em, ed) =
            delete_nodes_all full1 spare1 r1 (omega (arith, listed)) in
          (
            pool',
            full1,
            spare',
            rw (lt→ltb pool.pkt_count_max pool.pkt_count (omega (arith, r.count)), e1, e),
            r',
            ep1,
            em ∙ em1,
            ed ∙ ed1 ∙ reverse_one excess (packets full) pool.deleted (omega arith),
            omega (arith, r'.count, listed, em, em1),
          )
    ]

-- Putting a packet into a ring of at most `pkt_count_max` packets, where `malloc` has a node to offer:
-- it comes last, if that makes one packet too many the oldest one is freed, and the ring holds at
-- most `pkt_count_max` packets again. No packet is lost or freed otherwise.
pub packet_pool_set_refines :
    {pool : Pool} (fresh : Option ℕ) (x : ℕ) (p : Packet) (full : List (ℕ × Packet))
    (spare : List ℕ)
    → IsRing pool full spare
    → fresh ≡ some x
    → pool.heap x ≡ none
    → 1 ≤ pool.pkt_count_max
    → length full ≤ pool.pkt_count_max
    → (pool' : Pool) × (full' : List (ℕ × Packet)) × (spare' : List ℕ) × (packet_pool_set fresh pool
          (some p)
        ≡ ok (true, pool'))
      × IsRing pool' full' spare'
      × (packets full' ≡ drop (length full + 1 - pool.pkt_count_max) (packets full ++ p ∷ []))
      × (pool'.deleted
          ≡ take (length full + 1 - pool.pkt_count_max) (packets full ++ p ∷ []) ++ pool.deleted)
      × (pool'.pkt_count ≤ pool'.pkt_count_max)
unfolding packet_pool_set
packet_pool_set_refines {pool} fresh x p full spare r ef free hm bounded =
    let (pool1, full1, spare1, e1, r1, ep1, em1, ed1) =
      save_from_tail-IsRing fresh x p full spare r ef free in
    let counted : length full1 ≡ length full + 1 =
      sym (length-packets full1)
      ∙ ap length ep1
      ∙ length-append (packets full) (p ∷ [])
      ∙ ap (λ n. n + 1) (length-packets full) in
    let (pool', full', spare', e, r', ep, em, ed, small) =
      trim-IsRing full1 spare1 r1 (omega (arith, counted)) (omega (arith, hm, em1))
        (omega (arith, counted, bounded, em1)) in
    let excess : length full1 - pool1.pkt_count_max ≡ length full + 1 - pool.pkt_count_max =
      ap₂ (λ n m. n - m) counted em1 in
    (
      pool',
      full',
      spare',
      rw e1 e,
      r',
      ep ∙ ap₂ (λ k ps. drop k ps) excess ep1,
      ed
          ∙ ap₂ (λ k ps. take k ps ++ pool1.deleted) excess ep1
          ∙ ap (λ d. take (length full + 1 - pool.pkt_count_max) (packets full ++ p ∷ []) ++ d) ed1,
      small,
    )
