-- ===== src/Protocol/Create.antt =====
-- `create_protocol_packet` writes the frame of its arguments.
use ccc_upgrade.Base.{
  ℕ, ◌+◌, ◌-◌, ◌/◌, ◌%◌, ◌^◌, ◌≤◌, ◌<◌, ◌≡◌, refl, sym, ap, subst, ◌∙◌, ◌⊎◌, inl, inr, true, Option,
  none, some, [], ◌∷◌, ◌++◌, append_assoc, arith, ltb, lt→ltb, le→leb, lt→not_leb, length, take,
  drop, length-append, length-take, length-drop, take-append-drop, take_all, drop-drop,
}
use ccc_upgrade.Base.Int.{pos}
use ccc_upgrade.Base.Bytes.{
  store_within, >>=-eq-ok, Run-cases, Bytes, ok, fault, store, load, store-append, split_block,
}
use ccc_upgrade.Protocol.{
  calcu_checksum, checksum_loop, fill_packet, create_protocol_packet, prologue,
}
use ccc_upgrade.Protocol.Frame.{sum, body, trailer, frame}

checksum_loop-sum :
    (bs rest : Bytes) (acc : ℕ)
    → checksum_loop (length bs) (bs ++ rest) acc % 2 ^ 16 ≡ (acc + sum bs) % 2 ^ 16
unfolding checksum_loop
checksum_loop-sum [] rest acc = omega arith
checksum_loop-sum (b ∷ bs) rest acc = omega (arith, checksum_loop-sum bs rest ((acc + b) % 2 ^ 32))

-- The checksum of the first bytes of a block is the low half word of their sum.
pub calcu_checksum-sum :
    (bs rest : Bytes) (n : ℕ)
    → n ≡ length bs
    → calcu_checksum (some (bs ++ rest)) (pos n) ≡ sum bs % 2 ^ 16
unfolding calcu_checksum
calcu_checksum-sum bs rest n e = rw e (checksum_loop-sum bs rest 0 ∙ omega arith)

pub length-body :
    (cmd cmd_ex : ℕ) (payload : Bytes) → length (body cmd cmd_ex payload) ≡ 7 + length payload
length-body cmd cmd_ex payload = omega arith

pub length-frame :
    (cmd cmd_ex : ℕ) (payload : Bytes) → length (frame cmd cmd_ex payload) ≡ 9 + length payload
length-frame cmd cmd_ex payload =
    omega (arith, length-append {0} (body cmd cmd_ex payload) (trailer (body cmd cmd_ex payload)))

load_all : (block : Bytes) (n : ℕ) → n ≡ length block → load n block ≡ ok block
unfolding load
load_all block n e = rw (le→leb n (length block) (omega arith), take_all block n (omega arith))

-- On a block in four parts of the right lengths.
fill_packet-parts :
    (cmd cmd_ex : ℕ) (payload h p t r : Bytes)
    → length payload < 2 ^ 31 - 7
    → length h ≡ 7
    → length p ≡ length payload
    → length t ≡ 2
    → fill_packet cmd cmd_ex (length payload) payload (h ++ (p ++ (t ++ r)))
      ≡ ok ((length payload + 9) % 2 ^ 32, frame cmd cmd_ex payload ++ r)
unfolding fill_packet
fill_packet-parts cmd cmd_ex payload h p t r small eh ep et =
    rw
      (
        store-append 0 [] h (p ++ (t ++ r)) (prologue cmd cmd_ex (length payload)) refl
            (omega arith),
        store-append 7 (prologue cmd cmd_ex (length payload)) p (t ++ r) payload refl (omega arith),
        wide,
        narrow,
        checked,
        high (sum (body cmd cmd_ex payload)),
        low (sum (body cmd cmd_ex payload)),
        written,
      )
      (ap (λ k. ok (k, frame cmd cmd_ex payload ++ r)) sized)
  where
    wide : (7 + length payload) % 2 ^ 32 ≡ 7 + length payload
    wide = omega arith

    narrow : ltb (7 + length payload) (2 ^ 31) ≡ true
    narrow = lt→ltb (7 + length payload) (2 ^ 31) (omega arith)

    high : (s : ℕ) → s % 2 ^ 16 / 2 ^ 8 % 256 ≡ s % 2 ^ 16 / 256
    high s = omega arith

    low : (s : ℕ) → s % 2 ^ 16 % 256 ≡ s % 256
    low s = omega arith

    checked :
        calcu_checksum
          (some (prologue cmd cmd_ex (length payload) ++ (payload ++ (t ++ r))))
          (pos (7 + length payload))
        ≡ sum (body cmd cmd_ex payload) % 2 ^ 16
    checked =
        ap (λ b. calcu_checksum (some b) (pos (7 + length payload)))
          (sym (append_assoc (prologue cmd cmd_ex (length payload)) payload (t ++ r)))
        ∙ calcu_checksum-sum (body cmd cmd_ex payload) (t ++ r) (7 + length payload) (omega arith)

    sized : (7 + length payload + 2) % 2 ^ 32 ≡ (length payload + 9) % 2 ^ 32
    sized = omega arith

    written :
        store
          (7 + length payload)
          (trailer (body cmd cmd_ex payload))
          (prologue cmd cmd_ex (length payload) ++ (payload ++ (t ++ r)))
        ≡ ok (frame cmd cmd_ex payload ++ r)
    written =
        ap (store (7 + length payload) (trailer (body cmd cmd_ex payload)))
          (sym (append_assoc (prologue cmd cmd_ex (length payload)) payload (t ++ r)))
        ∙ store-append (7 + length payload) (body cmd cmd_ex payload) t r
            (trailer (body cmd cmd_ex payload)) (omega arith) (omega arith)
        ∙ ap ok (sym (append_assoc (body cmd cmd_ex payload) (trailer (body cmd cmd_ex payload)) r))

module _ (cmd cmd_ex : ℕ) (payload out : Bytes) where
  fill_packet-frame :
      length payload < 2 ^ 31 - 9
      → length payload + 9 ≤ length out
      → fill_packet cmd cmd_ex (length payload) payload out
        ≡ ok (length payload + 9, frame cmd cmd_ex payload ++ drop (length payload + 9) out)
  fill_packet-frame small room =
      ap (fill_packet cmd cmd_ex (length payload) payload) four_parts
      ∙ fill_packet-parts cmd cmd_ex payload (take 7 out) (take (length payload) (drop 7 out))
          (take 2 (drop (7 + length payload) out)) (drop (length payload + 9) out) (omega arith)
          (omega (arith, length-take {0} 7 out))
          (omega (arith, length-take {0} (length payload) (drop 7 out), length-drop {0} 7 out))
          (omega (
            arith,
            length-take {0} 2 (drop (7 + length payload) out),
            length-drop {0} (7 + length payload) out,
          ))
      ∙ ap (λ k. ok (k, frame cmd cmd_ex payload ++ drop (length payload + 9) out)) (omega arith)
    where
      four_parts :
          out
          ≡ take 7 out
            ++ (take (length payload) (drop 7 out)
                ++ (take 2 (drop (7 + length payload) out) ++ drop (length payload + 9) out))
      four_parts =
          split_block 7 (length payload) out
          ∙ ap (λ t. take 7 out ++ (take (length payload) (drop 7 out) ++ t))
              (sym (take-append-drop 2 (drop (7 + length payload) out))
                ∙ ap (λ t. take 2 (drop (7 + length payload) out) ++ t)
                    (drop-drop (7 + length payload) 2 out ∙ ap (λ k. drop k out) (omega arith)))

  fill_packet_within :
      {r : ℕ × Bytes}
      → fill_packet cmd cmd_ex (length payload) payload out ≡ ok r
      → length payload < 2 ^ 31 - 9
      → length payload + 9 ≤ length out
  unfolding fill_packet
  fill_packet_within e small =
      let (out1, e1, f1) = >>=-eq-ok (store 0 (prologue cmd cmd_ex (length payload)) out) _ e in
      let (out2, e2, f2) = >>=-eq-ok (store 7 payload out1) _ f1 in
      let (out3, e3, f3) = >>=-eq-ok (store ((7 + length payload) % 2 ^ 32) _ out2) _ f2 in
      let (l1, b1) = store_within 0 (prologue cmd cmd_ex (length payload)) out e1 in
      let (l2, b2) = store_within 7 payload out1 e2 in
      let (l3, b3) = store_within ((7 + length payload) % 2 ^ 32) _ out2 e3 in omega arith

-- A packet that fits in its buffer: the call returns its length, writes the frame of the command
-- and of the first `data_len` bytes at `data`, and leaves the bytes behind it alone.
pub create_protocol_packet-frame :
    (cmd cmd_ex data_len buffer_size : ℕ) (data_ out_buffer : Bytes)
    → data_len ≤ length data_
    → data_len < 2 ^ 31 - 9
    → 7 < buffer_size
    → data_len + 9 ≤ length out_buffer
    → create_protocol_packet cmd cmd_ex (some data_) data_len (some out_buffer) buffer_size
      ≡ ok (
        data_len + 9,
        some (frame cmd cmd_ex (take data_len data_) ++ drop (data_len + 9) out_buffer),
      )
unfolding create_protocol_packet load
create_protocol_packet-frame cmd cmd_ex n buffer_size data_ out hd hn hb ho =
    let e : n ≡ length (take n data_) = omega (arith, length-take {0} n data_) in
    let filled = fill_packet-frame cmd cmd_ex (take n data_) out (omega arith) (omega arith) in
    let filled' =
      subst
        (λ k.
          fill_packet cmd cmd_ex k (take n data_) out
          ≡ ok (k + 9, frame cmd cmd_ex (take n data_) ++ drop (k + 9) out))
        (sym e) filled in
    rw (lt→not_leb buffer_size 7 hb, le→leb n (length data_) hd, filled')

-- A buffer that is too short for the packet is overrun: of `buffer_size` the call checks only that
-- it exceeds 7, not that it holds the payload and the checksum.
pub create_protocol_packet_overrun :
    (cmd cmd_ex data_len buffer_size : ℕ) (data_ out_buffer : Bytes)
    → data_len ≤ length data_
    → data_len < 2 ^ 31 - 9
    → 7 < buffer_size
    → length out_buffer < data_len + 9
    → create_protocol_packet cmd cmd_ex (some data_) data_len (some out_buffer) buffer_size ≡ fault
unfolding create_protocol_packet load
create_protocol_packet_overrun cmd cmd_ex n buffer_size data_ out hd hn hb ho =
    let e : n ≡ length (take n data_) = omega (arith, length-take {0} n data_) in
    let overrun =
      elim (Run-cases (fill_packet cmd cmd_ex (length (take n data_)) (take n data_) out))
        as (λ _. fill_packet cmd cmd_ex (length (take n data_)) (take n data_) out ≡ fault) [
          | inl f ↦ f
          | inr (r, f) ↦
              absurd
                (omega (arith, fill_packet_within cmd cmd_ex (take n data_) out f (omega arith)))
        ] in
    let overrun' =
      subst (λ k. fill_packet cmd cmd_ex k (take n data_) out ≡ fault) (sym e) overrun in
    rw (lt→not_leb buffer_size 7 hb, le→leb n (length data_) hd, overrun')

-- Without a buffer, or with one of seven bytes or fewer, the call returns 0 and writes nothing.
pub create_protocol_packet_refused :
    (cmd cmd_ex data_len buffer_size : ℕ) (data_ out_buffer : Option Bytes)
    → (out_buffer ≡ none) ⊎ (buffer_size ≤ 7)
    → create_protocol_packet cmd cmd_ex data_ data_len out_buffer buffer_size ≡ ok (0, out_buffer)
unfolding create_protocol_packet
create_protocol_packet_refused cmd cmd_ex n size data_ none h = refl
create_protocol_packet_refused cmd cmd_ex n size data_ (some out) (inl e) = cc
create_protocol_packet_refused cmd cmd_ex n size data_ (some out) (inr h) = rw (le→leb size 7 h)
