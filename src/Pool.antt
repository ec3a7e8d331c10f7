-- ===== src/Pool.antt =====
-- src/packet_pool/packet_pool.c: idle packets in a ring of nodes on the heap. Its mutex makes each
-- operation one step. `fresh` is the address that `malloc` returns for a node, NULL as `none`.
pub mod Ring
pub mod Save
pub mod Take
pub mod Free
pub mod Buffer
pub mod Trim
pub mod Keeps
pub mod Stock
mod Tests
use ccc_upgrade.Base.{
  ℕ, zero, suc, ◌+◌, ◌-◌, Bool, true, false, ◌||◌, Option, none, some, List, [], ◌∷◌, ltb, leb,
  ◌==◌, if◌then◌else◌,
}
use ccc_upgrade.Base.Int.{ℤ, pos, ltb_ℤ}
use ccc_upgrade.Base.Bytes.{Bytes, Run, ok, fault, ◌>>=◌}
use ccc_upgrade.Packet.{Packet, ccc_packet_malloc, ccc_packet_create}

-- `struct packet_node`
pub record Node : Type 0 where
  pub pkt_ptr : Option Packet
  pub next : Option ℕ

abbrev pub Heap : Type 0
Heap = ℕ → Option Node

-- `PACKET_NODE_LIST`, with the heap that its nodes live on and the packets that
-- `ccc_packet_delete` has freed, the last one first.
pub record Pool : Type 0 where
  pub head : Option ℕ
  pub tail : Option ℕ
  pub ring_size : ℕ
  pub pkt_count : ℕ
  pub pkt_count_max : ℕ
  pub heap : Heap
  pub deleted : List Packet

unfoldable pub write : Heap → ℕ → Option Node → Heap
write h a c b = if b == a then c else h b

unfoldable pub read : Heap → Option ℕ → Run Node
read h none = fault
read h (some a) = elim (h a) [ none ↦ fault | some n ↦ ok n ]

unfoldable pub set_next : Heap → Option ℕ → Option ℕ → Run Heap
set_next h none q = fault
set_next h (some a) q = elim (h a) [
  | none ↦ fault
  | some n ↦ ok (write h a (some (record n { next = q })))
]

unfoldable pub set_pkt : Heap → Option ℕ → Option Packet → Run Heap
set_pkt h none p = fault
set_pkt h (some a) p = elim (h a) [
  | none ↦ fault
  | some n ↦ ok (write h a (some (record n { pkt_ptr = p })))
]

-- `internal_packet_pool_node_free`
pub internal_packet_pool_node_free : Heap → Option ℕ → Run Heap
internal_packet_pool_node_free h none = ok h
internal_packet_pool_node_free h (some a) = elim (h a) [
  | none ↦ fault
  | some n ↦ ok (write h a none)
]

unfoldable pub internal_packet_pool_node_insert : Pool → ℕ → Run Pool
internal_packet_pool_node_insert pool x =
    if leb pool.ring_size 0
    then (do
      heap ← set_next pool.heap (some x) (some x)
      ok (record pool {
        head = some x;
        tail = some x;
        ring_size = pool.ring_size + 1;
        heap = heap;
      }))
    else (do
      tail ← read pool.heap pool.tail
      heap ← set_next pool.heap (some x) tail.next
      heap ← set_next heap pool.tail (some x)
      ok (record pool { ring_size = pool.ring_size + 1; heap = heap }))

pub internal_packet_pool_node_delete : Pool → Run Pool
internal_packet_pool_node_delete pool =
    if leb pool.ring_size 0
    then ok pool
    else if pool.ring_size == 1
    then (do
      heap ← internal_packet_pool_node_free pool.heap pool.tail
      ok (record pool { head = none; tail = none; ring_size = 0; heap = heap }))
    else (do
      tail ← read pool.heap pool.tail
      node ← read pool.heap tail.next
      heap ← set_next pool.heap pool.tail node.next
      heap ← internal_packet_pool_node_free heap tail.next
      ok (record pool { ring_size = pool.ring_size - 1; heap = heap }))

-- `internal_packet_pool_node_create` and `internal_packet_pool_node_add`
unfoldable pub internal_packet_pool_node_add : Option ℕ → Pool → Run (Bool × Pool)
internal_packet_pool_node_add none pool = ok (false, pool)
internal_packet_pool_node_add (some x) pool = do
  let node : Node = record { pkt_ptr = none; next = none }
  pool' ← internal_packet_pool_node_insert (record pool { heap = write pool.heap x (some node) }) x
  ok (true, pool')

unfoldable pub put_behind_tail : Packet → Bool × Pool → Run (Bool × Pool)
put_behind_tail p (false, pool) = ok (false, pool)
put_behind_tail p (true, pool) = do
  tail ← read pool.heap pool.tail
  heap ← set_pkt pool.heap tail.next (some p)
  ok (true, record pool { heap = heap; tail = tail.next; pkt_count = pool.pkt_count + 1 })

unfoldable pub internal_packet_pool_save_from_tail :
    Option ℕ → Pool → Option Packet → Run (Bool × Pool)
internal_packet_pool_save_from_tail fresh pool none = ok (false, pool)
internal_packet_pool_save_from_tail fresh pool (some p) = do
  grown ←
      if pool.ring_size == pool.pkt_count
      then internal_packet_pool_node_add fresh pool
      else ok (true, pool)
  put_behind_tail p grown

unfoldable pub internal_packet_pool_get_from_head : Pool → Run (Option Packet × Pool)
internal_packet_pool_get_from_head pool =
    if leb pool.ring_size 0 || leb pool.pkt_count 0 then ok (none, pool) else (do
      head ← read pool.heap pool.head
      heap ← set_pkt pool.heap pool.head none
      ok (
        head.pkt_ptr,
        record pool { heap = heap; head = head.next; pkt_count = pool.pkt_count - 1 },
      ))

-- `if(packet) ccc_packet_delete(packet)`
abbrev pub delete_packet : Option Packet → List Packet → List Packet
delete_packet none deleted = deleted
delete_packet (some p) deleted = p ∷ deleted

-- The two loops of `internal_packet_pool_delete`. Each takes a packet, or a node, in every round, so
-- the counts at the start are enough fuel.
pub delete_packets : ℕ → Pool → Run Pool
delete_packets zero pool = ok pool
delete_packets (suc fuel) pool =
    if ltb pool.pkt_count_max pool.pkt_count
    then (do
      (packet, pool') ← internal_packet_pool_get_from_head pool
      delete_packets fuel (record pool' { deleted = delete_packet packet pool'.deleted }))
    else ok pool

pub delete_nodes : ℕ → Pool → Run Pool
delete_nodes zero pool = ok pool
delete_nodes (suc fuel) pool =
    if ltb pool.pkt_count pool.ring_size
    then (do pool' ← internal_packet_pool_node_delete pool; delete_nodes fuel pool')
    else ok pool

unfoldable pub internal_packet_pool_delete : Pool → Run Pool
internal_packet_pool_delete pool = do
  pool' ← delete_packets pool.pkt_count pool
  delete_nodes pool'.ring_size pool'

unfoldable pub trim : Bool × Pool → Run (Bool × Pool)
trim (false, pool) = ok (false, pool)
trim (true, pool) = do
  pool' ←
      if ltb pool.pkt_count_max pool.pkt_count then internal_packet_pool_delete pool else ok pool
  ok (true, pool')

-- `packet_pool_set` and `internal_packet_pool_set`
unfoldable pub packet_pool_set : Option ℕ → Pool → Option Packet → Run (Bool × Pool)
packet_pool_set fresh pool packet = do
  saved ← internal_packet_pool_save_from_tail fresh pool packet
  trim saved

-- The memory that `malloc` offers for a packet and for a buffer of a given size.
pub record Memory : Type 0 where
  pub packet : Option Packet
  pub block : ℕ → Option Bytes

abbrev pub or_create : Option Packet → Option Packet → Option Packet
or_create fresh none = ccc_packet_create fresh
or_create fresh (some p) = some p

-- `packet_pool_get_buffer` and `internal_packet_pool_get`; that the buffer may be missing is not
-- looked at.
unfoldable pub packet_pool_get_buffer : Memory → Pool → ℤ → Run (Option Packet × Pool)
packet_pool_get_buffer memory pool req_buffer_size = do
  (result, pool') ← internal_packet_pool_get_from_head pool
  let packet = or_create memory.packet result
  ok (
    (if ltb_ℤ (pos 0) req_buffer_size
        then (ccc_packet_malloc memory.block packet req_buffer_size).1
        else packet),
    pool',
  )

abbrev pub point_pdu : Option Packet → Option Packet
point_pdu none = none
point_pdu (some p) = some (record p { un_pdu = record p.un_pdu { block = p.buffer } })

unfoldable pub packet_pool_get_pdu_buf : Memory → Pool → ℤ → Run (Option Packet × Pool)
packet_pool_get_pdu_buf memory pool buffer_size = do
  (result, pool') ← packet_pool_get_buffer memory pool buffer_size
  ok (point_pdu result, pool')

pub packet_pool_get : Memory → Pool → Run (Option Packet × Pool)
packet_pool_get memory pool = packet_pool_get_buffer memory pool (pos 0)

-- `g_packet_list_idle` at the start.
abbrev pub idle : Heap → Pool
idle heap = record {
  head = none;
  tail = none;
  ring_size = 0;
  pkt_count = 0;
  pkt_count_max = 128;
  heap = heap;
  deleted = [];
}
