-- ===== src/Packet/Laws.antt =====
-- A packet's buffer is as large as it says, and grows before data is saved into it.
use ccc_upgrade.Base.{
  ℕ, suc, ◌≤◌, ◌≡◌, refl, sym, ap, ◌∙◌, ◌≢◌, ◌⊎◌, inl, inr, Bool, true, false, Option, none, some,
  ◌++◌, arith, le→not_ltb, Bool-cases, Option-cases, length, take, drop, length-take,
  take-append_left,
}
use ccc_upgrade.Base.Int.{pos}
use ccc_upgrade.Base.Bytes.{load_fits, store_at_front, Bytes, ok, store_at}
use ccc_upgrade.Packet.{
  needs_buffer, type_normal, Packet, grow_buffer, cccpacket_check_buffer,
  internal_cccpacket_save_data, saved_as, save_checked, ccc_packet_save_data,
}

-- The block behind `buffer` has `buffer_size` bytes.
abbrev pub IsValid : Packet → Type 0
IsValid p = elim p.buffer [ none ↦ Unit {0} | some block ↦ length block ≡ p.buffer_size ]

-- `malloc` returns NULL or a block of the size it was asked for.
abbrev pub IsMalloc : (ℕ → Option Bytes) → Type 0
IsMalloc mem = (n : ℕ) → elim (mem n) [ none ↦ Unit {0} | some block ↦ length block ≡ n ]

-- A check for a positive number of bytes in a valid packet keeps it valid: it succeeds and the buffer
-- then holds that many bytes or more, or `malloc` has failed and the packet has no buffer.
pub cccpacket_check_buffer_lem :
    (mem : ℕ → Option Bytes) (p : Packet) (n : ℕ)
    → IsMalloc mem
    → IsValid p
    → (q : Packet) × (done : Bool) × (cccpacket_check_buffer mem (some p) (pos (suc n))
        ≡ (done, some q))
      × IsValid q
      × (((done ≡ false) × (q.buffer ≡ none) × (mem (suc n) ≡ none))
          ⊎ ((block : Bytes) × (done ≡ true) × (q.buffer ≡ some block) × (suc n ≤ length block)))
unfolding cccpacket_check_buffer grow_buffer
cccpacket_check_buffer_lem mem p n hm v = elim (Bool-cases (needs_buffer p (suc n))) [
  | inl need ↦ elim (Option-cases (mem (suc n))) [
    | inl failed ↦ (
      record p { buffer = none },
      false,
      rw (need, failed, grow_buffer),
      tt,
      inl (refl, refl, failed),
    )
    | inr (block, e) ↦
        let sized : length block ≡ suc n = rw e at (hm (suc n)) in
        (
          record p { buffer = some block; buffer_size = suc n },
          true,
          rw (need, e, grow_buffer),
          sized,
          inr (block, refl, refl, omega (arith, sized)),
        )
  ]
  | inr enough ↦ elim (Option-cases p.buffer) [
    | inl empty ↦ ground arith
    | inr (block, e) ↦
        let sized : length block ≡ p.buffer_size = rw e at v in
        (p, true, rw enough, v, inr (block, refl, e, ground arith))
  ]
]

internal_cccpacket_save_data_lem :
    (q : Packet) (data_ block : Bytes) (n : ℕ)
    → IsValid q
    → q.buffer ≡ some block
    → suc n ≤ length block
    → suc n ≤ length data_
    → internal_cccpacket_save_data (some q) (some data_) (pos (suc n))
      ≡ ok (
        true,
        some (record q {
          data_len = suc n;
          buffer = some (take (suc n) data_ ++ drop (suc n) block);
        }),
      )
unfolding internal_cccpacket_save_data
internal_cccpacket_save_data_lem q data_ block n w eb room enough =
    let sized : length block ≡ q.buffer_size = rw eb at w in
    let taken : length (take (suc n) data_) ≡ suc n =
      omega (arith, length-take {0} (suc n) data_) in
    let stored : store_at 0 (take (suc n) data_) q.buffer
        ≡ ok (some (take (suc n) data_ ++ drop (suc n) block)) =
      ap (store_at 0 (take (suc n) data_)) eb
      ∙ store_at_front (take (suc n) data_) block (omega (arith, taken))
      ∙ ap (λ k. ok (some (take (suc n) data_ ++ drop k block))) taken in
    rw (
      le→not_ltb q.buffer_size (suc n) (omega (arith, sized)),
      load_fits (suc n) data_ enough,
      stored,
    )

-- Saving a positive number of bytes in a valid packet, where `malloc` can deliver so many: all of
-- them arrive at the front of the buffer, none is cut off, and the packet is marked as a plain one.
pub ccc_packet_save_data_whole :
    (mem : ℕ → Option Bytes) (p : Packet) (data_ : Bytes) (n : ℕ)
    → IsMalloc mem
    → IsValid p
    → mem (suc n) ≢ none
    → suc n ≤ length data_
    → (q : Packet) × (block : Bytes) × (ccc_packet_save_data mem (some p) (some data_) (pos (suc n))
        ≡ ok (true, some q))
      × (q.data_type ≡ type_normal)
      × (q.data_len ≡ suc n)
      × (q.buffer ≡ some block)
      × (take (suc n) block ≡ take (suc n) data_)
unfolding ccc_packet_save_data save_checked saved_as
ccc_packet_save_data_whole mem p data_ n hm v can enough =
    let (q, done, e, w, outcome) = cccpacket_check_buffer_lem mem p n hm v in
    elim outcome [
      | inl (_, _, failed) ↦ absurd (can failed)
      | inr (block, ed, eb, room) ↦
          let checked : cccpacket_check_buffer mem (some p) (pos (suc n)) ≡ (true, some q) =
            e ∙ ap (λ x. (x, some q)) ed in
          let saved = internal_cccpacket_save_data_lem q data_ block n w eb room enough in
          let taken : length (take (suc n) data_) ≡ suc n =
            omega (arith, length-take {0} (suc n) data_) in
          let front : Bytes = take (suc n) data_ in
          (
            record q {
              data_type = type_normal;
              data_len = suc n;
              buffer = some (front ++ drop (suc n) block);
            },
            front ++ drop (suc n) block,
            rw (checked, saved),
            refl,
            refl,
            refl,
            take-append_left front (drop (suc n) block) (suc n) (sym taken),
          )
    ]
