-- ===== src/Pool/Save.antt =====
-- Putting a packet into the pool: the ring grows when it is full, and the packet goes behind the tail.
use ccc_upgrade.Base.{
  ℕ, ◌+◌, ◌≡◌, refl, sym, ap, subst, ◌∙◌, true, false, Option, none, some, List, [], ◌∷◌, ◌++◌,
  append-nil, append_assoc, arith, ◌==◌, le→leb, lt→not_leb, length-append,
}
use ccc_upgrade.Base.Bytes.{ok}
use ccc_upgrade.Packet.{Packet}
use ccc_upgrade.Pool.{
  Heap, Pool, write, internal_packet_pool_node_insert, internal_packet_pool_node_add,
  put_behind_tail, internal_packet_pool_save_from_tail,
}
use ccc_upgrade.Pool.Ring.{
  Cell, node, entry, last, Seg, Fresh, Distinct, fulls, spares, packets, IsRing, write_self,
  write_ne, Seg-write, Seg-append, Seg-split, Seg-last, Fresh-of_none, Distinct-middle,
  Distinct-insert, Seg-relink, last-append_one, fulls-append_one, packets-append_one, entry_payload,
  read-some, set_next-some, set_pkt-some,
}

-- In a ring with an empty node the tail is linked to the first empty one.
pub tail_link :
    {pool : Pool} (full : List (ℕ × Packet)) (s : ℕ) (ys : List ℕ)
    → IsRing pool full (s ∷ ys)
    → (t : ℕ) × (q : Option Packet) × (pool.tail ≡ some t) × (pool.heap t ≡ some (node q (some s)))
tail_link {pool} [] s ys r =
    let (t, q, e, k) = Seg-last pool.heap (s, none) (spares ys) (some s) none r.chain in
    (t, q, r.at_tail ∙ e, k)
tail_link {pool} ((a, p) ∷ full) s ys r =
    let (sF, _) = Seg-split pool.heap (fulls ((a, p) ∷ full)) (spares (s ∷ ys)) (some a) r.chain in
    let (t, q, e, k) =
      Seg-last pool.heap (a, some p) (fulls full) (some s) (last (spares (s ∷ ys)) none) sF in
    (t, q, r.at_tail ∙ e, k)

pub put_behind_tail-IsRing :
    {pool : Pool} (p : Packet) (full : List (ℕ × Packet)) (s : ℕ) (ys : List ℕ)
    → IsRing pool full (s ∷ ys)
    → (pool' : Pool) × (put_behind_tail p (true, pool) ≡ ok (true, pool'))
      × IsRing pool' (full ++ (s, p) ∷ []) ys
      × (pool'.pkt_count_max ≡ pool.pkt_count_max)
      × (pool'.deleted ≡ pool.deleted)
unfolding put_behind_tail
put_behind_tail-IsRing {pool} p full s ys r =
    let h : Heap = pool.heap in
    let front : List Cell = fulls full in
    let back : List Cell = spares ys in
    let stop : Option ℕ = entry (front ++ (s, none) ∷ back) none in
    let (t, q, et, kt) = tail_link full s ys r in
    let (sF, sS) = Seg-split h front ((s, none) ∷ back) stop r.chain in
    let (fF, fY, dFY) = Distinct-middle front s none back r.distinct in
    let h' : Heap = write h s (some (node (some p) (entry back stop))) in
    let cells : fulls (full ++ (s, p) ∷ []) ++ back ≡ front ++ (s, some p) ∷ back =
      ap (λ x. x ++ back) (fulls-append_one full s p)
      ∙ append_assoc front ((s, some p) ∷ []) back in
    let same : stop ≡ entry (front ++ (s, some p) ∷ back) none =
      entry_payload front back s none (some p) none in
    let chained : Seg h' (front ++ (s, some p) ∷ back) stop =
      Seg-append h' front ((s, some p) ∷ back) stop (Seg-write h s _ front (some s) fF sF)
        (write_self h s _, Seg-write h s _ back stop fY sS.1) in
    (
      record pool { heap = h'; tail = some s; pkt_count = pool.pkt_count + 1 },
      rw (
        et,
        read-some h t (node q (some s)) kt,
        set_pkt-some h s none (some p) (entry back stop) sS.0,
      ),
      record {
        chain =
            subst (λ cs. Seg h' cs (entry cs none)) (sym cells)
              (subst (λ x. Seg h' (front ++ (s, some p) ∷ back) x) same chained);
        distinct = subst Distinct (sym cells) (Distinct-insert front s (some p) back fF fY dFY);
        at_head = r.at_head ∙ same ∙ ap (λ cs. entry cs none) (sym cells);
        at_tail = sym (
            ap (λ cs. last cs (last back none)) (fulls-append_one full s p)
            ∙ last-append_one front s (some p) (last back none));
        size = omega (arith, r.size, length-append {0} full ((s, p) ∷ []));
        count = omega (arith, r.count, length-append {0} full ((s, p) ∷ []));
      },
      refl,
      refl,
    )

-- A full ring with one more node, which is empty.
node_insert-IsRing :
    {pool : Pool} (full : List (ℕ × Packet)) (x : ℕ)
    → IsRing pool full []
    → pool.heap x ≡ none
    → (pool' : Pool) × (internal_packet_pool_node_add (some x) pool ≡ ok (true, pool'))
      × IsRing pool' full (x ∷ [])
      × (pool'.pkt_count_max ≡ pool.pkt_count_max)
      × (pool'.deleted ≡ pool.deleted)
unfolding internal_packet_pool_node_add internal_packet_pool_node_insert
node_insert-IsRing {pool} [] x r e =
    let h0 : Heap = write pool.heap x (some (node none none)) in
    let made = set_next-some h0 x none none (some x) (write_self pool.heap x _) in
    (
      record pool {
        head = some x;
        tail = some x;
        ring_size = pool.ring_size + 1;
        heap = write h0 x (some (node none (some x)));
      },
      rw (le→leb pool.ring_size 0 (omega (arith, r.size)), made),
      record {
        chain = (write_self h0 x _, tt);
        distinct = (tt, tt);
        at_head = refl;
        at_tail = refl;
        size = omega (arith, r.size);
        count = r.count;
      },
      refl,
      refl,
    )
node_insert-IsRing {pool} ((a, p) ∷ full) x r e =
    let front : List Cell = fulls ((a, p) ∷ full) in
    let whole : front ++ [] ≡ front = append-nil front in
    let chained : Seg pool.heap front (some a) =
      subst (λ cs. Seg pool.heap cs (some a)) whole r.chain in
    let free : Fresh x front = Fresh-of_none pool.heap x front (some a) e chained in
    let apart : Distinct (front ++ (x, none) ∷ []) =
      Distinct-insert front x none [] free tt r.distinct in
    let h0 : Heap = write pool.heap x (some (node none none)) in
    let h1 : Heap = write h0 x (some (node none (some a))) in
    let chain1 : Seg h1 front (some a) =
      Seg-write h0 x _ front (some a) free (Seg-write pool.heap x _ front (some a) free chained) in
    let (t, q, et, kt, chain2, ft) =
      Seg-relink h1 (a, some p) (fulls full) ((x, none) ∷ []) (some a) (some x) none apart chain1 in
    let h2 : Heap = write h1 t (some (node q (some x))) in
    let kt0 : h0 t ≡ some (node q (some a)) = sym (write_ne h0 x t _ (λ k. ft.0 (sym k))) ∙ kt in
    let end : h2 x ≡ some (node none (some a)) = write_ne h1 t x _ ft.0 ∙ write_self h0 x _ in
    (
      record pool { ring_size = pool.ring_size + 1; heap = h2 },
      rw (
        lt→not_leb pool.ring_size 0 (omega (arith, r.size)),
        r.at_tail ∙ et,
        read-some h0 t (node q (some a)) kt0,
        set_next-some h0 x none none (some a) (write_self pool.heap x _),
        set_next-some h1 t q (some a) (some x) kt,
      ),
      record {
        chain = Seg-append h2 front ((x, none) ∷ []) (some a) chain2 (end, tt);
        distinct = apart;
        at_head = r.at_head;
        at_tail = r.at_tail;
        size = omega (arith, r.size);
        count = r.count;
      },
      refl,
      refl,
    )

-- Saving a packet in a ring whose nodes hold the packets of `full`, oldest first: where a node is empty,
-- or where `malloc` has a new one to offer, the packet is saved behind all others, and the pool is a
-- ring as before.
pub save_from_tail-IsRing :
    {pool : Pool} (fresh : Option ℕ) (x : ℕ) (p : Packet) (full : List (ℕ × Packet))
    (spare : List ℕ)
    → IsRing pool full spare
    → fresh ≡ some x
    → pool.heap x ≡ none
    → (pool' : Pool) × (full' : List (ℕ × Packet)) × (spare' : List ℕ)
      × (internal_packet_pool_save_from_tail fresh pool (some p) ≡ ok (true, pool'))
      × IsRing pool' full' spare'
      × (packets full' ≡ packets full ++ p ∷ [])
      × (pool'.pkt_count_max ≡ pool.pkt_count_max)
      × (pool'.deleted ≡ pool.deleted)
unfolding internal_packet_pool_save_from_tail
save_from_tail-IsRing {pool} fresh x p full [] r ef free =
    let (pool1, e1, r1, em1, ed1) = node_insert-IsRing full x r free in
    let (pool', e, r', em, ed) = put_behind_tail-IsRing p full x [] r1 in
    let crowded : (pool.ring_size == pool.pkt_count) ≡ true = ground (arith, r.size, r.count) in
    (
      pool',
      full ++ (x, p) ∷ [],
      [],
      rw (crowded, ef, e1) e,
      r',
      packets-append_one full x p,
      em ∙ em1,
      ed ∙ ed1,
    )
save_from_tail-IsRing {pool} fresh x p full (s ∷ ys) r ef free =
    let (pool', e, r', em, ed) = put_behind_tail-IsRing p full s ys r in
    let roomy : (pool.ring_size == pool.pkt_count) ≡ false = ground (arith, r.size, r.count) in
    (pool', full ++ (s, p) ∷ [], ys, rw roomy e, r', packets-append_one full s p, em, ed)

-- Where no node is empty and `malloc` has none to offer, nothing is saved and the pool is unchanged.
pub save_from_tail_refused :
    {pool : Pool} (p : Packet) (full : List (ℕ × Packet))
    → IsRing pool full []
    → internal_packet_pool_save_from_tail none pool (some p) ≡ ok (false, pool)
unfolding internal_packet_pool_save_from_tail internal_packet_pool_node_add put_behind_tail
save_from_tail_refused {pool} p full r = ground (arith, r.size, r.count)
