-- ===== src/Adapter/Stream/Frames.antt =====
-- A stream of whole packets is handled packet by packet, in order.
use ccc_upgrade.Base.{
  ℕ, zero, suc, ◌+◌, ◌≤◌, ◌≡◌, refl, sym, ap, ◌∙◌, inl, inr, Bool, false, Option, some, List, [],
  ◌∷◌, ◌++◌, arith, ◌==◌, length, drop, All, length-append, length-drop, drop-append_left,
}
use ccc_upgrade.Base.Bytes.{Bytes, Run, ok, fault, ◌>>=◌, Run-cases}
use ccc_upgrade.Base.Int.{ℤ, pos}
use ccc_upgrade.Protocol.{Pdu, parse_packet2}
use ccc_upgrade.Protocol.Frame.{frame}
use ccc_upgrade.Protocol.Create.{length-frame}
use ccc_upgrade.Protocol.Parse.RoundTrip.{filled, parse_packet2-frame}
use ccc_upgrade.Packet.{Packet}
use ccc_upgrade.Services.{Services}
use ccc_upgrade.Adapter.{process_protocol_pdu}
use ccc_upgrade.Adapter.Stream.{
  handle_enabled, with_pdu, process_loop, protocol_adapter_process_data,
}

-- A packet as its sender sees it.
pub record Message : Type 0 where
  pub cmd : ℕ
  pub cmd_ex : ℕ
  pub payload : Bytes

abbrev pub wire : Message → Bytes
wire m = frame m.cmd m.cmd_ex m.payload

abbrev pub wires : List Message → Bytes
wires [] = []
wires (m ∷ ms) = wire m ++ wires ms

-- The payload fits into a buffer of `room` bytes, and is not refused for its length.
abbrev pub Fits : ℕ → Message → Type 0
Fits room m = (length m.payload ≤ room) × (length m.payload ≤ 0xFFFFF)

abbrev advanced : {A : Type 0} → ℕ → Run (ℕ × A) → Run (ℕ × A)
advanced n r = r >>= λ y. ok (n + y.0, y.1)

abbrev counted : {A : Type 0} → ℕ → Run A → Run (ℕ × A)
counted k r = r >>= λ x. ok (k, x)

advance : {A : Type 0} (r : Run A) (n k : ℕ) → advanced n (counted k r) ≡ counted (n + k) r
advance (ok a) n k = refl
advance fault n k = refl

module _ {W : Type 0} (s : Services W) (dir : Option Bytes) where
  -- The messages are handled one after the other, each read into the block that the last one left.
  abbrev pub handle_all : ℤ → Bool → List Message → Pdu → Bytes → W → Run (Pdu × W)
  handle_all handle b_login [] pdu block w = ok (pdu, w)
  handle_all handle b_login (m ∷ ms) pdu block w =
      let pdu' = filled (record pdu { b_enable = false }) m.cmd m.cmd_ex m.payload block in
      process_protocol_pdu s dir handle pdu' b_login w >>= λ r.
      handle_all handle b_login ms pdu' (m.payload ++ drop (length m.payload) block) r.1

  process_loop-wires :
      (fuel room : ℕ) (handle : ℤ) (b_login : Bool) (ms : List Message) (pdu : Pdu) (block : Bytes)
      (w : W)
      → length (wires ms) ≤ fuel
      → All (Fits room) ms
      → length block ≡ room
      → pdu.block ≡ some block
      → process_loop s dir fuel handle (wires ms) b_login pdu w
        ≡ counted (length (wires ms)) (handle_all handle b_login ms pdu block w)
  unfolding process_loop handle_enabled
  process_loop-wires zero room handle b_login [] pdu block w hf hs hl hp = refl
  process_loop-wires (suc fuel) room handle b_login [] pdu block w hf hs hl hp = refl
  process_loop-wires zero room handle b_login (m ∷ ms) pdu block w hf hs hl hp =
      absurd (omega arith)
  process_loop-wires (suc fuel) room handle b_login (m ∷ ms) pdu block w hf hs hl hp =
      let off : Pdu = record pdu { b_enable = false } in
      let pdu' : Pdu = filled off m.cmd m.cmd_ex m.payload block in
      let block' : Bytes = m.payload ++ drop (length m.payload) block in
      let parsed : parse_packet2 (wires (m ∷ ms)) off ≡ ok (9 + length m.payload, pdu') =
        parse_packet2-frame m.cmd m.cmd_ex [] m.payload (wires ms) block off tt hs.0.1 hp
          (omega (arith, hs.0.0, hl))
        ∙ ap (λ n. ok (n, pdu')) {x = 0 + (9 + length m.payload)} {y = 9 + length m.payload}
            (omega arith) in
      let sized : length (wire m) ≡ 9 + length m.payload = length-frame m.cmd m.cmd_ex m.payload in
      let kept : length block' ≡ room = omega (
        arith,
        hs.0.0,
        length-append {0} m.payload (drop (length m.payload) block),
        length-drop {0} (length m.payload) block,
      ) in
      let rest : drop (9 + length m.payload) (wires (m ∷ ms)) ≡ wires ms =
        drop-append_left (wire m) (wires ms) (9 + length m.payload) (sym sized) in
      let used : 9 + length m.payload + length (wires ms) ≡ length (wires (m ∷ ms)) =
        omega (arith, sized, length-append {0} (wire m) (wires ms)) in
      let some_used : (9 + length m.payload == 0) ≡ false = ground arith in
      elim (Run-cases (process_protocol_pdu s dir handle pdu' b_login w)) [
        | inl e ↦ rw (parsed, some_used, e)
        | inr (r, e) ↦
            rw (parsed, some_used, e, rest)
              (ap (advanced (9 + length m.payload)) (
                  process_loop-wires fuel room handle b_login ms pdu' block' r.1
                    (omega (arith, used)) hs.1 kept refl)
                ∙ advance (handle_all handle b_login ms pdu' block' r.1) (9 + length m.payload)
                    (length (wires ms))
                ∙ ap (λ k. counted k (handle_all handle b_login ms pdu' block' r.1)) used)
      ]

  -- A stream of whole packets that fit into the packet's buffer and have at most 0xFFFFF bytes of data
  -- each: the call uses all of it, handles the packets in their order, each in the state that the
  -- one before has left, and gives the packet back at the end.
  pub process_data-wires :
      (handle : ℤ) (b_login : Bool) (ms : List Message) (p : Packet) (block : Bytes) (w w1 : W)
      → s.packet_pool_get_pdu_buf (pos 4096) w ≡ ok (some p, w1)
      → p.un_pdu.block ≡ some block
      → All (Fits (length block)) ms
      → protocol_adapter_process_data s dir handle (wires ms) b_login w ≡ (do
        (pdu, w2) ← handle_all handle b_login ms p.un_pdu block w1
        (_, w3) ← s.packet_pool_set (with_pdu p pdu) w2
        ok (length (wires ms), w3))
  unfolding protocol_adapter_process_data
  process_data-wires handle b_login ms p block w w1 got hp hs =
      rw
        (
          got,
          process_loop-wires (length (wires ms)) (length block) handle b_login ms p.un_pdu block w1
              (omega arith) hs refl hp,
        )
        (elim (Run-cases (handle_all handle b_login ms p.un_pdu block w1)) [
          | inl e ↦ rw e
          | inr (r, e) ↦ rw e
        ])
