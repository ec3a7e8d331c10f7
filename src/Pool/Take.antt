-- ===== src/Pool/Take.antt =====
-- Taking a packet from the pool: the oldest one, whose node becomes the last of the empty ones.
use ccc_upgrade.Base.{
  ℕ, ◌-◌, ◌≡◌, refl, sym, ap, subst, ◌∙◌, false, ◌||◌, Option, none, some, List, [], ◌∷◌, ◌++◌,
  append-nil, append_assoc, arith, leb, length-append,
}
use ccc_upgrade.Base.Bytes.{ok}
use ccc_upgrade.Packet.{Packet}
use ccc_upgrade.Pool.{Heap, Pool, write, internal_packet_pool_get_from_head}
use ccc_upgrade.Pool.Ring.{
  Cell, node, entry, last, Seg, Distinct, fulls, spares, packets, IsRing, write_self, Seg-write,
  Seg-append, Distinct-insert, last-append_one, spares-append_one, read-some, set_pkt-some,
  entry-append,
}

last-append :
    (xs ys : List Cell) (before : Option ℕ) → last (xs ++ ys) before ≡ last ys (last xs before)
last-append [] ys before = refl
last-append ((a, p) ∷ xs) ys before = last-append xs ys (some a)

pub get_from_head-IsRing :
    {pool : Pool} (a : ℕ) (p : Packet) (full : List (ℕ × Packet)) (spare : List ℕ)
    → IsRing pool ((a, p) ∷ full) spare
    → (pool' : Pool) × (internal_packet_pool_get_from_head pool ≡ ok (some p, pool'))
      × IsRing pool' full (spare ++ a ∷ [])
      × (pool'.pkt_count_max ≡ pool.pkt_count_max)
      × (pool'.deleted ≡ pool.deleted)
unfolding internal_packet_pool_get_from_head
get_from_head-IsRing {pool} a p full spare r =
    let rest : List Cell = fulls full ++ spares spare in
    let next : Option ℕ = entry rest (some a) in
    let h' : Heap = write pool.heap a (some (node none next)) in
    let cells : fulls full ++ spares (spare ++ a ∷ []) ≡ rest ++ (a, none) ∷ [] =
      ap (λ t. fulls full ++ t) (spares-append_one spare a)
      ∙ sym (append_assoc (fulls full) (spares spare) ((a, none) ∷ [])) in
    let stop : entry (rest ++ (a, none) ∷ []) none ≡ next =
      entry-append rest ((a, none) ∷ []) none in
    let chained : Seg h' (rest ++ (a, none) ∷ []) next =
      Seg-append h' rest ((a, none) ∷ []) next
        (Seg-write pool.heap a _ rest (some a) r.distinct.0 r.chain.1)
        (write_self pool.heap a _, tt) in
    let apart : Distinct (rest ++ (a, none) ∷ []) =
      Distinct-insert rest a none [] r.distinct.0 tt
        (subst Distinct (sym (append-nil rest)) r.distinct.1) in
    let busy : (leb pool.ring_size 0 || leb pool.pkt_count 0) ≡ false =
      ground (arith, r.size, r.count) in
    (
      record pool { heap = h'; head = next; pkt_count = pool.pkt_count - 1 },
      rw (
        busy,
        r.at_head,
        read-some pool.heap a _ r.chain.0,
        set_pkt-some pool.heap a (some p) none next r.chain.0,
      ),
      record {
        chain =
            subst (λ cs. Seg h' cs (entry cs none)) (sym cells)
              (subst (λ x. Seg h' (rest ++ (a, none) ∷ []) x) (sym stop) chained);
        distinct = subst Distinct (sym cells) apart;
        at_head = sym stop ∙ ap (λ cs. entry cs none) (sym cells);
        at_tail =
            r.at_tail
            ∙ ap (last (fulls full)) (
                sym (
                  ap (λ cs. last cs none) (spares-append_one spare a)
                  ∙ last-append_one (spares spare) a none none));
        size = omega (arith, r.size, length-append {0} spare (a ∷ []));
        count = omega (arith, r.count);
      },
      refl,
      refl,
    )

pub get_from_head_empty :
    {pool : Pool} (spare : List ℕ)
    → IsRing pool [] spare
    → internal_packet_pool_get_from_head pool ≡ ok (none, pool)
unfolding internal_packet_pool_get_from_head
get_from_head_empty {pool} spare r = ground (arith, r.count)

abbrev pub oldest : List Packet → Option Packet
oldest [] = none
oldest (p ∷ ps) = some p

abbrev pub younger : List Packet → List Packet
younger [] = []
younger (p ∷ ps) = ps

-- Taking from a ring is taking from the front of a queue: the oldest packet is returned, NULL if there
-- is none, the others stay in their order, and no node is lost.
pub get_from_head_refines :
    {pool : Pool} (full : List (ℕ × Packet)) (spare : List ℕ)
    → IsRing pool full spare
    → (pool' : Pool) × (full' : List (ℕ × Packet)) × (spare' : List ℕ)
      × (internal_packet_pool_get_from_head pool ≡ ok (oldest (packets full), pool'))
      × IsRing pool' full' spare'
      × (packets full' ≡ younger (packets full))
      × (pool'.ring_size ≡ pool.ring_size)
get_from_head_refines {pool} [] spare r =
    (pool, [], spare, get_from_head_empty spare r, r, refl, refl)
get_from_head_refines {pool} ((a, p) ∷ full) spare r =
    let (pool', e, r', _, _) = get_from_head-IsRing a p full spare r in
    (
      pool',
      full,
      spare ++ a ∷ [],
      e,
      r',
      refl,
      omega (arith, r.size, r'.size, length-append {0} spare (a ∷ [])),
    )
