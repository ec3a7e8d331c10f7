-- ===== src/Md5/Chunks.antt =====
-- The sum of a file does not depend on how it is read.
use ccc_upgrade.Base.{
  ℕ, zero, ◌+◌, ◌*◌, ◌/◌, ◌%◌, ◌^◌, ◌≤◌, ◌<◌, ◌≡◌, refl, sym, ap, ap₂, subst, ◌∙◌, ◌⊎◌, inl, inr,
  true, false, not, ◌&&◌, Option, none, some, List, [], ◌∷◌, ◌++◌, append-nil, append_assoc, arith,
  ◌==◌, Bool-cases, length, take, drop, replicate, length-append, length-replicate, length-take,
  length-drop, take-append-drop, take-append_left,
}
use ccc_upgrade.Base.Bytes.{
  load_fits, store_fits, Bytes, ok, ◌>>=◌, store, load, store-append, store_within,
}
use ccc_upgrade.Md5.{
  Quad, Md5state, seed, encode, quad_words, started, count_words, padding, md5_blocks, md5,
  Md5result, print_digest, sum_loop, sum, hex_text, buffer_size,
}
use ccc_upgrade.Md5.Message.{
  pads, padded, digest_of, concat, waiting, Reads, padding_lem, length-pads, length-count,
  md5_blocks-append, padded_split,
}

-- The state behind `k` blocks.
record Follows (message : Bytes) (k : ℕ) (s : Option Md5state) : Type 0 where
  blocks : length message ≡ k * 64
  continued :
      (len : ℕ)
      → started s len
        ≡ record { len = (length message + len) % 2 ^ 32; state = md5_blocks k message seed }

Follows-start : Follows [] 0 none
unfolding md5_blocks
Follows-start = record {
  blocks = refl;
  continued = λ len.
      ap (λ n. record { len = n % 2 ^ 32; state = seed }) {x = len} {y = 0 + len} (omega arith);
}

-- A call of `md5` on whole blocks.
md5-Follows :
    (message block back : Bytes) (k j : ℕ) (s : Option Md5state)
    → Follows message k s
    → length block ≡ j * 64
    → 0 < j
    → (result : Md5result) × (md5 (block ++ back) (length block) s ≡ ok result)
      × (result.buf ≡ block ++ back)
      × Follows (message ++ block) (k + j) result.s
unfolding md5
md5-Follows message block back k j s f eb hj =
    let n : ℕ = length block in
    let whole : (n % 64 == 0 && not (n == 0)) ≡ true = ground (arith, eb, hj) in
    let loaded : load n (block ++ back) ≡ ok block =
      load_fits n (block ++ back) (omega (arith, length-append {0} block back))
      ∙ ap ok (take-append_left block back n refl) in
    let state : Quad = md5_blocks (n / 64) block (md5_blocks k message seed) in
    let joined : md5_blocks (k + j) (message ++ block) seed ≡ state =
      md5_blocks-append (k + j) k (n / 64) message block seed (omega (arith, eb)) f.blocks in
    let s' : Md5state = record { len = (length message + n) % 2 ^ 32; state = state } in
    (
      record { buf = block ++ back; digest = none; s = some s' },
      rw (whole, loaded, f.continued n),
      refl,
      record {
        blocks = omega (arith, eb, f.blocks, length-append {0} message block);
        continued = λ len.
            ap₂ (λ l q. record { len = l; state = q })
              {x = ((length message + n) % 2 ^ 32 + len) % 2 ^ 32}
              (omega (arith, length-append {0} message block)) (sym joined);
      },
    )

digest_state :
    (message rest : Bytes) (k : ℕ) {s : Option Md5state}
    → Follows message k s
    → md5_blocks (length (padded (message ++ rest)) / 64) (padded (message ++ rest)) seed
      ≡ md5_blocks
          ((length rest + padding (length rest % 64) + 8) / 64)
          ((rest ++ pads (length rest % 64))
            ++ encode (count_words ((length message + length rest) % 2 ^ 32)))
          (md5_blocks k message seed)
digest_state message rest k f =
    let n : ℕ = length rest in
    let front : Bytes = rest ++ pads (n % 64) in
    let count : Bytes = encode (count_words ((length message + n) % 2 ^ 32)) in
    let split = padded_split message rest k f.blocks in
    let sized : length (padded (message ++ rest)) ≡ k * 64 + (n + padding (n % 64) + 8) =
      ap length split
      ∙ omega (
        arith,
        f.blocks,
        length-append {0} message (front ++ count),
        length-append {0} front count,
        length-append {0} rest (pads (n % 64)),
        length-pads n,
        length-count ((length message + n) % 2 ^ 32),
      ) in
    ap (λ b. md5_blocks (length (padded (message ++ rest)) / 64) b seed) split
    ∙ md5_blocks-append (length (padded (message ++ rest)) / 64) k ((n + padding (n % 64) + 8) / 64)
        message (front ++ count) seed (omega (arith, sized, (padding_lem n).2)) f.blocks

-- The last call of `md5`.
md5_last :
    (message rest back : Bytes) (k : ℕ) (s : Option Md5state)
    → Follows message k s
    → ((length rest ≡ 0) ⊎ ((length rest % 64 == 0) ≡ false))
    → 72 ≤ length back
    → (result : Md5result) × (md5 (rest ++ back) (length rest) s ≡ ok result)
      × (result.digest ≡ some (digest_of (message ++ rest)))
unfolding md5
md5_last message rest back k s f last room =
    let n : ℕ = length rest in
    let total : ℕ = length message + n in
    let pad : ℕ = padding (n % 64) in
    let (some_pad, small, aligned) = padding_lem n in
    let front : Bytes = rest ++ pads (n % 64) in
    let count : Bytes = encode (count_words (total % 2 ^ 32)) in
    let input : Bytes = front ++ count in
    let back1 : Bytes = drop pad back in
    let back2 : Bytes = drop 8 back1 in
    let not_whole : (n % 64 == 0 && not (n == 0)) ≡ false = ground (arith, last) in
    let first : store n (pads (n % 64)) (rest ++ back) ≡ ok (rest ++ (pads (n % 64) ++ back1)) =
      ap (λ b. store n (pads (n % 64)) (rest ++ b)) (sym (take-append-drop pad back))
      ∙ store-append n rest (take pad back) back1 (pads (n % 64)) refl
          (length-pads n ∙ omega (arith, length-take {0} pad back)) in
    let regroup : rest ++ (pads (n % 64) ++ back1) ≡ front ++ (take 8 back1 ++ back2) =
      sym (append_assoc rest (pads (n % 64)) back1)
      ∙ ap (λ b. front ++ b) (sym (take-append-drop 8 back1)) in
    let sized : length front ≡ n + pad =
      omega (arith, length-append {0} rest (pads (n % 64)), length-pads n) in
    let second : store (n + pad) count (rest ++ (pads (n % 64) ++ back1))
        ≡ ok (front ++ (count ++ back2)) =
      ap (store (n + pad) count) regroup
      ∙ store-append (n + pad) front (take 8 back1) back2 count (sym sized) (
          length-count (total % 2 ^ 32)
          ∙ omega (arith, length-take {0} 8 back1, length-drop {0} pad back)) in
    let covered : n + pad + 8 ≡ length input =
      omega (arith, sized, length-append {0} front count, length-count (total % 2 ^ 32)) in
    let loaded : load (n + pad + 8) (front ++ (count ++ back2)) ≡ ok input =
      ap (load (n + pad + 8)) (sym (append_assoc front count back2))
      ∙ load_fits (n + pad + 8) (input ++ back2)
          (omega (arith, covered, length-append {0} input back2))
      ∙ ap ok (take-append_left input back2 (n + pad + 8) covered) in
    let state : Quad = md5_blocks ((n + pad + 8) / 64) input (md5_blocks k message seed) in
    (
      record {
        buf = front ++ (count ++ back2);
        digest = some (encode (quad_words state));
        s = none;
      },
      rw (not_whole, f.continued n, first, second, loaded),
      ap (λ q. some (encode (quad_words q))) (sym (digest_state message rest k f)),
    )

sum_loop_lem :
    (chunks : List Bytes) (n : ℕ) (buf message : Bytes) (k : ℕ) (s : Option Md5state)
    → Reads n chunks
    → length buf ≡ 16384
    → n ≤ 8192
    → ((n ≡ 0) ⊎ ((n % 64 == 0) ≡ false))
    → Follows message k s
    → sum_loop chunks n buf s ≡ ok (some (digest_of (message ++ (take n buf ++ concat chunks))))
unfolding sum_loop
sum_loop_lem [] n buf message k s reads room small last f =
    let rest : Bytes = take n buf in
    let sized : n ≡ length rest = omega (arith, room, length-take {0} n buf) in
    let (result, e, digest) =
      md5_last message rest (drop n buf) k s f
        (subst (λ m. (m ≡ 0) ⊎ ((m % 64 == 0) ≡ false)) sized last)
        (omega (arith, room, length-drop {0} n buf)) in
    let whole : md5 buf n s ≡ ok result =
      ap₂ (λ b m. md5 b m s) (sym (take-append-drop n buf)) sized ∙ e in
    ap (λ r. r >>= λ x. ok x.digest) whole
    ∙ ap ok digest
    ∙ ap (λ b. ok (some (digest_of (message ++ b)))) (sym (append-nil rest))
sum_loop_lem (chunk ∷ chunks) n buf message k s reads room small last f =
    let front : Bytes = take n buf in
    let back : Bytes = drop (n + length chunk) buf in
    let block : Bytes = front ++ chunk in
    let total : ℕ = n + length chunk in
    let buf' : Bytes = front ++ (chunk ++ back) in
    let (some_read, fits, reads') = reads in
    let stored : store n chunk buf ≡ ok buf' = store_fits n chunk buf (omega (arith, fits, room)) in
    let regroup : buf' ≡ block ++ back = sym (append_assoc front chunk back) in
    let sized : total ≡ length block =
      omega (arith, room, length-append {0} front chunk, length-take {0} n buf) in
    let kept : length buf' ≡ 16384 = (store_within n chunk buf stored).0 ∙ room in
    elim (Bool-cases (total % 64 == 0)) [
      | inl e ↦
          let blocks : length block ≡ total / 64 * 64 = ground (arith, e, sized) in
          let (result, em, eb, f') =
            md5-Follows message block back k (total / 64) s f blocks
              (ground (arith, e, some_read)) in
          let called : md5 buf' total s ≡ ok result = ap₂ (λ b m. md5 b m s) regroup sized ∙ em in
          let none_left : waiting total ≡ 0 = rw e refl in
          rw (stored, e, called)
            (sum_loop_lem chunks 0 result.buf (message ++ block) (k + total / 64) result.s
                (subst (λ m. Reads m chunks) none_left reads') (ap length (eb ∙ sym regroup) ∙ kept)
                (omega arith) (inl refl) f'
              ∙ ap (λ b. ok (some (digest_of b)))
                  (append_assoc message block (concat chunks)
                    ∙ ap (λ b. message ++ b) (append_assoc front chunk (concat chunks))))
      | inr e ↦
          let all_left : waiting total ≡ total = rw e refl in
          let shown : take total buf' ≡ block =
            ap (take total) regroup ∙ take-append_left block back total sized in
          rw (stored, e)
            (sum_loop_lem chunks total buf' message k s
                (subst (λ m. Reads m chunks) all_left reads') kept fits (inr e) f
              ∙ ap (λ b. ok (some (digest_of (message ++ (b ++ concat chunks))))) shown
              ∙ ap (λ b. ok (some (digest_of (message ++ b))))
                  (append_assoc front chunk (concat chunks)))
    ]

-- The sum of a file is the MD5 digest of all its bytes in upper case hexadecimal digits: the message is
-- padded once, the blocks of 64 bytes go one after the other into the seed, and the state is written
-- out. It does not depend on the sizes of the pieces that `fread` delivers, as long as no call
-- delivers nothing before the end or more than it was asked for. The bytes are counted modulo 2 ^ 32.
pub sum-digest :
    (chunks : List Bytes) → Reads 0 chunks → sum chunks ≡ ok (hex_text (digest_of (concat chunks)))
unfolding sum
sum-digest chunks reads =
    ap (λ r. r >>= print_digest)
      (sum_loop_lem chunks 0 (replicate buffer_size 0) [] 0 none reads
        (length-replicate {0} buffer_size zero) (omega arith) (inl refl) Follows-start)
