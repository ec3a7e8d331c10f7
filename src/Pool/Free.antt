-- ===== src/Pool/Free.antt =====
-- The loops that free packets and nodes, on a ring.
use ccc_upgrade.Base.{
  ℕ, zero, suc, ◌-◌, ◌≤◌, ◌≡◌, refl, sym, ap, ◌∙◌, false, Option, none, some, List, [], ◌∷◌, ◌++◌,
  arith, ◌==◌, lt→ltb, le→not_ltb, lt→not_leb, length, take, drop,
}
use ccc_upgrade.Base.Bytes.{ok}
use ccc_upgrade.Packet.{Packet}
use ccc_upgrade.Pool.{
  Heap, Pool, write, internal_packet_pool_node_delete, delete_packets, delete_nodes,
}
use ccc_upgrade.Pool.Ring.{
  Cell, node, entry, last, fulls, spares, packets, IsRing, write_self, write_ne, Seg-write,
  Seg-append, Seg-split, Distinct-middle, Seg-relink, read-some, set_next-some, node_free_some,
}
use ccc_upgrade.Pool.Take.{get_from_head-IsRing}
use mathlib.Core.List.{reverse_aux}
use native.Mathlib.Decide.{dec_lt}

-- Freeing the first empty node of a ring that holds a packet.
node_delete-IsRing :
    {pool : Pool} (a : ℕ) (p : Packet) (full : List (ℕ × Packet)) (s : ℕ) (ys : List ℕ)
    → IsRing pool ((a, p) ∷ full) (s ∷ ys)
    → (pool' : Pool) × (internal_packet_pool_node_delete pool ≡ ok pool')
      × IsRing pool' ((a, p) ∷ full) ys
      × (pool'.pkt_count_max ≡ pool.pkt_count_max)
      × (pool'.deleted ≡ pool.deleted)
      × (pool'.heap s ≡ none)
unfolding internal_packet_pool_node_delete
node_delete-IsRing {pool} a p full s ys r =
    let front : List Cell = fulls ((a, p) ∷ full) in
    let back : List Cell = spares ys in
    let next : Option ℕ = entry back (some a) in
    let (sF, sS) = Seg-split pool.heap front ((s, none) ∷ back) (some a) r.chain in
    let (fF, fY, apart) = Distinct-middle front s none back r.distinct in
    let (t, q, et, kt, relinked, ft) =
      Seg-relink pool.heap (a, some p) (fulls full) ((s, none) ∷ back) (some s) next
        (last (spares (s ∷ ys)) none) r.distinct sF in
    let h1 : Heap = write pool.heap t (some (node q next)) in
    let kept : h1 s ≡ some (node none next) = write_ne pool.heap t s _ ft.0 ∙ sS.0 in
    let h2 : Heap = write h1 s none in
    (
      record pool { ring_size = pool.ring_size - 1; heap = h2 },
      rw (
        lt→not_leb pool.ring_size 0 (omega (arith, r.size)),
        several,
        r.at_tail ∙ et,
        read-some pool.heap t (node q (some s)) kt,
        read-some pool.heap s (node none next) sS.0,
        set_next-some pool.heap t q (some s) next kt,
        node_free_some h1 s (node none next) kept,
      ),
      record {
        chain = Seg-append h2 front back (some a) (Seg-write h1 s none front next fF relinked) (
            Seg-write h1 s none back (some a) fY (Seg-write pool.heap t _ back (some a) ft.1 sS.1));
        distinct = apart;
        at_head = r.at_head;
        at_tail = r.at_tail;
        size = omega (arith, r.size);
        count = r.count;
      },
      refl,
      refl,
      write_self h1 s none,
    )
  where
    several : (pool.ring_size == 1) ≡ false
    several = ground (arith, r.size)

-- All empty nodes are freed, if the fuel is their number or more.
pub delete_nodes-IsRing :
    (fuel : ℕ) {pool : Pool} (a : ℕ) (p : Packet) (full : List (ℕ × Packet)) (spare : List ℕ)
    → IsRing pool ((a, p) ∷ full) spare
    → length spare ≤ fuel
    → (pool' : Pool) × (delete_nodes fuel pool ≡ ok pool')
      × IsRing pool' ((a, p) ∷ full) []
      × (pool'.pkt_count_max ≡ pool.pkt_count_max)
      × (pool'.deleted ≡ pool.deleted)
unfolding delete_nodes
delete_nodes-IsRing zero {pool} a p full [] r h = (pool, refl, r, refl, refl)
delete_nodes-IsRing zero {pool} a p full (s ∷ ys) r h = absurd (omega arith)
delete_nodes-IsRing (suc fuel) {pool} a p full [] r h = (
  pool,
  rw (le→not_ltb pool.pkt_count pool.ring_size (omega (arith, r.size, r.count))),
  r,
  refl,
  refl,
)
delete_nodes-IsRing (suc fuel) {pool} a p full (s ∷ ys) r h =
    let (pool1, e1, r1, em1, ed1, _) = node_delete-IsRing a p full s ys r in
    let (pool', e, r', em, ed) = delete_nodes-IsRing fuel a p full ys r1 (omega arith) in
    (
      pool',
      rw (lt→ltb pool.pkt_count pool.ring_size (omega (arith, r.size, r.count)), e1) e,
      r',
      em ∙ em1,
      ed ∙ ed1,
    )

IsRing-deleted :
    {pool : Pool} (full : List (ℕ × Packet)) (spare : List ℕ) (deleted : List Packet)
    → IsRing pool full spare
    → IsRing (record pool { deleted = deleted }) full spare
IsRing-deleted full spare deleted r = record {
  chain = r.chain;
  distinct = r.distinct;
  at_head = r.at_head;
  at_tail = r.at_tail;
  size = r.size;
  count = r.count;
}

pub within_drop : (ps : List Packet) (n m : ℕ) → n ≤ m → ps ≡ drop (n - m) ps
within_drop ps n m h = ap (λ k. drop k ps) {x = 0} {y = n - m} (omega arith)

within_take :
    (ps : List Packet) (n m : ℕ) (deleted : List Packet)
    → n ≤ m
    → deleted ≡ reverse_aux (take (n - m) ps) deleted
within_take ps n m deleted h =
    ap (λ k. reverse_aux (take k ps) deleted) {x = 0} {y = n - m} (omega arith)

-- The oldest packets beyond the limit are freed, if the fuel is the number of packets or more.
pub delete_packets-IsRing :
    (fuel : ℕ) {pool : Pool} (full : List (ℕ × Packet)) (spare : List ℕ)
    → IsRing pool full spare
    → length full ≤ fuel
    → (pool' : Pool) × (full' : List (ℕ × Packet)) × (spare' : List ℕ) × (delete_packets fuel pool
        ≡ ok pool')
      × IsRing pool' full' spare'
      × (packets full' ≡ drop (length full - pool.pkt_count_max) (packets full))
      × (pool'.pkt_count_max ≡ pool.pkt_count_max)
      × (pool'.deleted
          ≡ reverse_aux (take (length full - pool.pkt_count_max) (packets full)) pool.deleted)
unfolding delete_packets
delete_packets-IsRing zero {pool} (f ∷ full) spare r h = absurd (omega arith)
delete_packets-IsRing zero {pool} [] spare r h = (
  pool,
  [],
  spare,
  refl,
  r,
  within_drop [] 0 _ (omega arith),
  refl,
  within_take [] 0 _ _ (omega arith),
)
delete_packets-IsRing (suc fuel) {pool} [] spare r h = (
  pool,
  [],
  spare,
  rw (le→not_ltb pool.pkt_count_max pool.pkt_count (omega (arith, r.count))),
  r,
  within_drop [] 0 _ (omega arith),
  refl,
  within_take [] 0 _ _ (omega arith),
)
delete_packets-IsRing (suc fuel) {pool} ((a, p) ∷ full) spare r h =
    elim (dec_lt pool.pkt_count_max (suc (length full))) [
      | no within ↦ (
        pool,
        (a, p) ∷ full,
        spare,
        rw (le→not_ltb pool.pkt_count_max pool.pkt_count (omega (arith, r.count))),
        r,
        within_drop (packets ((a, p) ∷ full)) (suc (length full)) _ (omega arith),
        refl,
        within_take (packets ((a, p) ∷ full)) (suc (length full)) _ _ (omega arith),
      )
      | yes over ↦
          let (pool1, e1, r1, em1, ed1) = get_from_head-IsRing a p full spare r in
          let freed : List Packet = p ∷ pool1.deleted in
          let (pool', full', spare', e, r', ep, em, ed) =
            delete_packets-IsRing fuel {pool = record pool1 { deleted = freed }} full
              (spare ++ a ∷ []) (IsRing-deleted full (spare ++ a ∷ []) freed r1) (omega arith) in
          let shorter : suc (length full) - pool.pkt_count_max
              ≡ suc (length full - pool1.pkt_count_max) =
            omega (arith, em1) in
          (
            pool',
            full',
            spare',
            rw (lt→ltb pool.pkt_count_max pool.pkt_count (omega (arith, r.count)), e1) e,
            r',
            ep ∙ ap (λ k. drop k (p ∷ packets full)) (sym shorter),
            em ∙ em1,
            ed
                ∙ ap
                    (λ d.
                      reverse_aux (take (length full - pool1.pkt_count_max) (packets full)) (p ∷ d))
                    ed1
                ∙ ap (λ k. reverse_aux (take k (p ∷ packets full)) pool.deleted) (sym shorter),
          )
    ]

-- The second loop of `internal_packet_pool_delete`, with the fuel that it is called with.
pub delete_nodes_all :
    {pool : Pool} (full : List (ℕ × Packet)) (spare : List ℕ)
    → IsRing pool full spare
    → 1 ≤ length full
    → (pool' : Pool) × (spare' : List ℕ) × (delete_nodes pool.ring_size pool ≡ ok pool')
      × IsRing pool' full spare'
      × (pool'.pkt_count_max ≡ pool.pkt_count_max)
      × (pool'.deleted ≡ pool.deleted)
delete_nodes_all [] spare r h = absurd (omega arith)
delete_nodes_all {pool} ((a, p) ∷ full) spare r h =
    let (pool', e, r', em, ed) =
      delete_nodes-IsRing pool.ring_size a p full spare r (omega (arith, r.size)) in
    (pool', [], e, r', em, ed)
