-- ===== src/Pool/Stock.antt =====
-- A sound pool of valid packets: every call that asks for a buffer gets one, where there is memory.
use ccc_upgrade.Base.{
  sym, ℕ, suc, ◌≤◌, ◌≡◌, refl, subst, ◌≢◌, Bool, Option, none, some, arith, length, All,
}
use ccc_upgrade.Base.Bytes.{Bytes, ok}
use ccc_upgrade.Base.Int.{pos}
use ccc_upgrade.Packet.{Packet}
use ccc_upgrade.Packet.Laws.{IsValid, IsMalloc}
use ccc_upgrade.Pool.{
  Pool, Memory, packet_pool_set, packet_pool_get_buffer, packet_pool_get_pdu_buf,
}
use ccc_upgrade.Pool.Ring.{packets}
use ccc_upgrade.Pool.Buffer.{packet_pool_get_buffer-room}
use ccc_upgrade.Pool.Keeps.{IsSound, IsFresh, packet_pool_set-kept}

pub record IsStocked (pool : Pool) : Type 0 where
  pub sound : IsSound pool
  pub valid : All IsValid (packets sound.full)

-- `malloc` has a packet and a block of the size.
pub record Delivers (memory : Memory) (size : ℕ) : Type 0 where
  pub spare : Packet
  pub for_packet : memory.packet ≡ some spare
  pub sized : IsMalloc memory.block
  pub for_buffer : memory.block size ≢ none

pub valid_size :
    (p : Packet) {block : Bytes} → IsValid p → p.buffer ≡ some block → length block ≡ p.buffer_size
valid_size p {block} v e =
    subst (λ b. elim b [ none ↦ Unit {0} | some t ↦ length t ≡ p.buffer_size ]) e v

pub sized-IsValid :
    (p : Packet) {block : Bytes} → p.buffer ≡ some block → length block ≡ p.buffer_size → IsValid p
sized-IsValid p e sized =
    subst (λ b. elim b [ none ↦ Unit {0} | some t ↦ length t ≡ p.buffer_size ]) (sym e) sized

pub packet_pool_get_buffer-IsStocked :
    {pool : Pool} (memory : Memory) (n : ℕ)
    → IsStocked pool
    → Delivers memory (suc n)
    → (p : Packet) × (block : Bytes) × (pool' : Pool) × (packet_pool_get_buffer memory pool
          (pos (suc n))
        ≡ ok (some p, pool'))
      × (p.buffer ≡ some block)
      × (suc n ≤ length block)
      × (length block ≡ p.buffer_size)
      × IsStocked pool'
packet_pool_get_buffer-IsStocked {pool} memory n h d =
    let v = h.sound in
    let (p, block, pool', full', spare', e, eb, room, vp, r', valid', shorter, em) =
      packet_pool_get_buffer-room {pool = pool} memory d.spare v.full v.spare n v.ring h.valid
        d.sized d.for_buffer d.for_packet in
    (
      p,
      block,
      pool',
      e,
      eb,
      room,
      valid_size p vp eb,
      record {
        sound = record {
          full = full';
          spare = spare';
          ring = r';
          bounded = omega (arith, v.bounded, shorter, em);
          room = omega (arith, v.room, em);
        };
        valid = valid';
      },
    )

pub packet_pool_get_pdu_buf-IsStocked :
    {pool : Pool} (memory : Memory) (n : ℕ)
    → IsStocked pool
    → Delivers memory (suc n)
    → (p : Packet) × (block : Bytes) × (pool' : Pool) × (packet_pool_get_pdu_buf memory pool
          (pos (suc n))
        ≡ ok (some p, pool'))
      × (p.un_pdu.block ≡ some block)
      × (suc n ≤ length block)
      × (length block ≡ p.buffer_size)
      × IsStocked pool'
unfolding packet_pool_get_pdu_buf
packet_pool_get_pdu_buf-IsStocked memory n h d =
    let (p, block, pool', e, eb, room, sized, h') = packet_pool_get_buffer-IsStocked memory n h d in
    (
      record p { un_pdu = record p.un_pdu { block = p.buffer } },
      block,
      pool',
      rw e refl,
      eb,
      room,
      sized,
      h',
    )

pub packet_pool_set-IsStocked :
    {pool : Pool} (fresh : Option ℕ) (p : Packet)
    → IsStocked pool
    → IsFresh fresh pool.heap
    → IsValid p
    → (done : Bool) × (pool' : Pool) × (packet_pool_set fresh pool (some p) ≡ ok (done, pool'))
      × IsStocked pool'
packet_pool_set-IsStocked fresh p h free vp =
    let (done, pool', e, v', kept) = packet_pool_set-kept fresh p h.sound free in
    (done, pool', e, record { sound = v'; valid = kept IsValid h.valid vp })
