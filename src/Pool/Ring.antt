-- ===== src/Pool/Ring.antt =====
-- The shape of the pool's ring: nodes that hold the idle packets, oldest first, then empty nodes, each
-- linked to the next and the last one to the first.
use ccc_upgrade.Base.{
  ℕ, suc, ◌+◌, ◌≡◌, refl, sym, ap, ◌∙◌, ◌≢◌, Option, none, some, List, [], ◌∷◌, ◌++◌, arith, length,
}
use ccc_upgrade.Base.Bytes.{ok}
use ccc_upgrade.Packet.{Packet}
use ccc_upgrade.Pool.{
  Node, Heap, Pool, write, read, set_next, set_pkt, internal_packet_pool_node_free,
}

abbrev pub Cell : Type 0
Cell = ℕ × Option Packet

abbrev pub node : Option Packet → Option ℕ → Node
node p q = record { pkt_ptr = p; next = q }

-- The address that a chain of cells begins at, and the one that it ends at.
abbrev pub entry : List Cell → Option ℕ → Option ℕ
entry [] stop = stop
entry ((a, p) ∷ cs) stop = some a

abbrev pub last : List Cell → Option ℕ → Option ℕ
last [] before = before
last ((a, p) ∷ cs) before = last cs (some a)

-- The cells in order, the last one linked to `stop`.
abbrev pub Seg : Heap → List Cell → Option ℕ → Type 0
Seg h [] stop = Unit {0}
Seg h ((a, p) ∷ cs) stop = (h a ≡ some (node p (entry cs stop))) × Seg h cs stop

abbrev pub Fresh : ℕ → List Cell → Type 0
Fresh a [] = Unit {0}
Fresh a ((b, p) ∷ cs) = (b ≢ a) × Fresh a cs

abbrev pub Distinct : List Cell → Type 0
Distinct [] = Unit {0}
Distinct ((a, p) ∷ cs) = Fresh a cs × Distinct cs

abbrev pub fulls : List (ℕ × Packet) → List Cell
fulls [] = []
fulls ((a, p) ∷ full) = (a, some p) ∷ fulls full

abbrev pub spares : List ℕ → List Cell
spares [] = []
spares (a ∷ spare) = (a, none) ∷ spares spare

abbrev pub packets : List (ℕ × Packet) → List Packet
packets [] = []
packets ((a, p) ∷ full) = p ∷ packets full

-- The pool is a ring of the nodes `full`, which hold packets, and `spare`, which hold none.
pub record IsRing (pool : Pool) (full : List (ℕ × Packet)) (spare : List ℕ) : Type 0 where
  pub chain : Seg pool.heap (fulls full ++ spares spare) (entry (fulls full ++ spares spare) none)
  pub distinct : Distinct (fulls full ++ spares spare)
  pub at_head : pool.head ≡ entry (fulls full ++ spares spare) none
  pub at_tail : pool.tail ≡ last (fulls full) (last (spares spare) none)
  pub size : pool.ring_size ≡ length full + length spare
  pub count : pool.pkt_count ≡ length full

pub write_self : (h : Heap) (a : ℕ) (c : Option Node) → write h a c a ≡ c
unfolding write
write_self h a c = ground arith

pub write_ne : (h : Heap) (a b : ℕ) (c : Option Node) → b ≢ a → write h a c b ≡ h b
unfolding write
write_ne h a b c ne = ground arith

pub Seg-write :
    (h : Heap) (a : ℕ) (c : Option Node) (cs : List Cell) (stop : Option ℕ)
    → Fresh a cs
    → Seg h cs stop
    → Seg (write h a c) cs stop
Seg-write h a c [] stop f s = tt
Seg-write h a c ((b, p) ∷ cs) stop f s =
    (write_ne h a b c f.0 ∙ s.0, Seg-write h a c cs stop f.1 s.1)

pub entry-append :
    (xs ys : List Cell) (stop : Option ℕ) → entry (xs ++ ys) stop ≡ entry xs (entry ys stop)
entry-append [] ys stop = refl
entry-append ((a, p) ∷ xs) ys stop = refl

pub Seg-append :
    (h : Heap) (xs ys : List Cell) (stop : Option ℕ)
    → Seg h xs (entry ys stop)
    → Seg h ys stop
    → Seg h (xs ++ ys) stop
Seg-append h [] ys stop s t = t
Seg-append h ((a, p) ∷ xs) ys stop s t =
    (s.0 ∙ ap (λ q. some (node p q)) (sym (entry-append xs ys stop)), Seg-append h xs ys stop s.1 t)

pub Seg-split :
    (h : Heap) (xs ys : List Cell) (stop : Option ℕ)
    → Seg h (xs ++ ys) stop
    → Seg h xs (entry ys stop) × Seg h ys stop
Seg-split h [] ys stop s = (tt, s)
Seg-split h ((a, p) ∷ xs) ys stop s =
    let (t, u) = Seg-split h xs ys stop s.1 in
    ((s.0 ∙ ap (λ q. some (node p q)) (entry-append xs ys stop), t), u)

-- The last cell of a chain, and the chain with its end linked elsewhere.
pub Seg-last :
    (h : Heap) (c : Cell) (cs : List Cell) (stop before : Option ℕ)
    → Seg h (c ∷ cs) stop
    → (a : ℕ) × (p : Option Packet) × (last (c ∷ cs) before ≡ some a) × (h a ≡ some (node p stop))
Seg-last h (a, p) [] stop before s = (a, p, refl, s.0)
Seg-last h (a, p) (c ∷ cs) stop before s = Seg-last h c cs stop (some a) s.1

pub Fresh-of_none :
    (h : Heap) (x : ℕ) (cs : List Cell) (stop : Option ℕ) → h x ≡ none → Seg h cs stop → Fresh x cs
Fresh-of_none h x [] stop e s = tt
Fresh-of_none h x ((a, p) ∷ cs) stop e s = ((λ k. cc (ap h k)), Fresh-of_none h x cs stop e s.1)

pub Fresh-append : (a : ℕ) (xs ys : List Cell) → Fresh a xs → Fresh a ys → Fresh a (xs ++ ys)
Fresh-append a [] ys f g = g
Fresh-append a (x ∷ xs) ys f g = (f.0, Fresh-append a xs ys f.1 g)

pub Fresh-split : (a : ℕ) (xs ys : List Cell) → Fresh a (xs ++ ys) → Fresh a xs × Fresh a ys
Fresh-split a [] ys f = (tt, f)
Fresh-split a (x ∷ xs) ys f = let (g, k) = Fresh-split a xs ys f.1 in ((f.0, g), k)

-- In a list without repetition a cell in the middle occurs neither before nor after.
pub Distinct-middle :
    (xs : List Cell) (a : ℕ) (p : Option Packet) (ys : List Cell)
    → Distinct (xs ++ (a, p) ∷ ys)
    → Fresh a xs × Fresh a ys × Distinct (xs ++ ys)
Distinct-middle [] a p ys d = (tt, d.0, d.1)
Distinct-middle ((b, q) ∷ xs) a p ys d =
    let (f, g, e) = Distinct-middle xs a p ys d.1 in
    let (k, l) = Fresh-split b xs ((a, p) ∷ ys) d.0 in
    (((λ same. l.0 (sym same)), f), g, (Fresh-append b xs ys k l.1, e))

pub Distinct-insert :
    (xs : List Cell) (a : ℕ) (p : Option Packet) (ys : List Cell)
    → Fresh a xs
    → Fresh a ys
    → Distinct (xs ++ ys)
    → Distinct (xs ++ (a, p) ∷ ys)
Distinct-insert [] a p ys f g d = (g, d)
Distinct-insert ((b, q) ∷ xs) a p ys f g d =
    let (k, l) = Fresh-split b xs ys d.0 in
    (
      Fresh-append b xs ((a, p) ∷ ys) k ((λ same. f.0 (sym same)), l),
      Distinct-insert xs a p ys f.1 g d.1,
    )

last-ne :
    (a t : ℕ) (c : Cell) (cs : List Cell) (before : Option ℕ)
    → Fresh a (c ∷ cs)
    → last (c ∷ cs) before ≡ some t
    → a ≢ t
last-ne a t (b, p) [] before f e = λ same. f.0 (cc)
last-ne a t (b, p) (c ∷ cs) before f e = last-ne a t c cs (some b) f.1 e

-- A chain with its last cell linked elsewhere is a chain to there.
pub Seg-relink :
    (h : Heap) (c : Cell) (cs ys : List Cell) (stop stop' before : Option ℕ)
    → Distinct ((c ∷ cs) ++ ys)
    → Seg h (c ∷ cs) stop
    → (t : ℕ) × (p : Option Packet) × (last (c ∷ cs) before ≡ some t)
      × (h t ≡ some (node p stop))
      × Seg (write h t (some (node p stop'))) (c ∷ cs) stop'
      × Fresh t ys
Seg-relink h (a, p) [] ys stop stop' before d s =
    (a, p, refl, s.0, (write_self h a (some (node p stop')), tt), d.0)
Seg-relink h (a, p) (c ∷ cs) ys stop stop' before d s =
    let (t, q, e, k, s', f) = Seg-relink h c cs ys stop stop' (some a) d.1 s.1 in
    let away = last-ne a t c cs (some a) (Fresh-split a (c ∷ cs) ys d.0).0 e in
    (t, q, e, k, (write_ne h t a (some (node q stop')) away ∙ s.0, s'), f)

pub last-append_one :
    (xs : List Cell) (a : ℕ) (p : Option Packet) (before : Option ℕ)
    → last (xs ++ (a, p) ∷ []) before ≡ some a
last-append_one [] a p before = refl
last-append_one ((b, q) ∷ xs) a p before = last-append_one xs a p (some b)

pub fulls-append_one :
    (full : List (ℕ × Packet)) (a : ℕ) (p : Packet)
    → fulls (full ++ (a, p) ∷ []) ≡ fulls full ++ (a, some p) ∷ []
fulls-append_one [] a p = refl
fulls-append_one (f ∷ full) a p = ap (λ t. (f.0, some f.1) ∷ t) (fulls-append_one full a p)

pub spares-append_one :
    (spare : List ℕ) (a : ℕ) → spares (spare ++ a ∷ []) ≡ spares spare ++ (a, none) ∷ []
spares-append_one [] a = refl
spares-append_one (b ∷ spare) a = ap (λ t. (b, none) ∷ t) (spares-append_one spare a)

pub packets-append_one :
    (full : List (ℕ × Packet)) (a : ℕ) (p : Packet)
    → packets (full ++ (a, p) ∷ []) ≡ packets full ++ p ∷ []
packets-append_one [] a p = refl
packets-append_one (f ∷ full) a p = ap (λ t. f.1 ∷ t) (packets-append_one full a p)

pub length-packets : (full : List (ℕ × Packet)) → length (packets full) ≡ length full
length-packets [] = refl
length-packets (f ∷ full) = ap suc (length-packets full)

pub entry_payload :
    (xs ys : List Cell) (a : ℕ) (p q : Option Packet) (stop : Option ℕ)
    → entry (xs ++ (a, p) ∷ ys) stop ≡ entry (xs ++ (a, q) ∷ ys) stop
entry_payload [] ys a p q stop = refl
entry_payload ((b, r) ∷ xs) ys a p q stop = refl

pub read-some : (h : Heap) (a : ℕ) (n : Node) → h a ≡ some n → read h (some a) ≡ ok n
unfolding read
read-some h a n e = rw (e, read)

pub set_next-some :
    (h : Heap) (a : ℕ) (p : Option Packet) (q q' : Option ℕ)
    → h a ≡ some (node p q)
    → set_next h (some a) q' ≡ ok (write h a (some (node p q')))
unfolding set_next
set_next-some h a p q q' e = rw (e, set_next)

pub set_pkt-some :
    (h : Heap) (a : ℕ) (p p' : Option Packet) (q : Option ℕ)
    → h a ≡ some (node p q)
    → set_pkt h (some a) p' ≡ ok (write h a (some (node p' q)))
unfolding set_pkt
set_pkt-some h a p p' q e = rw (e, set_pkt)

pub node_free_some :
    (h : Heap) (a : ℕ) (n : Node)
    → h a ≡ some n
    → internal_packet_pool_node_free h (some a) ≡ ok (write h a none)
unfolding internal_packet_pool_node_free
node_free_some h a n e = rw (e, internal_packet_pool_node_free)
