-- ===== src/Adapter/Stream/Bounds.antt =====
-- How many bytes of a stream are used, and that the fuel of its loop is enough.
use ccc_upgrade.Base.{
  ℕ, zero, suc, ◌+◌, ◌≤◌, ◌≡◌, sym, ap, subst, ◌∙◌, inl, inr, Bool, false, Option, some, [], ◌∷◌,
  arith, ◌==◌, Bool-cases, Option-cases, length, drop, length-drop,
}
use ccc_upgrade.Base.Bytes.{ok_inv, Bytes, ok, >>=-eq-ok}
use ccc_upgrade.Base.Int.{ℤ, pos}
use ccc_upgrade.Protocol.{Pdu, parse_packet2}
use ccc_upgrade.Protocol.Parse.Safe.{size, parse_packet2-le}
use ccc_upgrade.Packet.{Packet}
use ccc_upgrade.Services.{Services}
use ccc_upgrade.Adapter.Stream.{
  with_pdu, handle_enabled, process_loop, protocol_adapter_process_data,
  protocol_adapter_process_udp_data,
}

module _ {W : Type 0} (s : Services W) (dir : Option Bytes) where
  process_loop-le :
      (fuel : ℕ) (handle : ℤ) (left : Bytes) (b_login : Bool) (pdu : Pdu) (w : W) {consume : ℕ}
      {end : Pdu × W}
      → process_loop s dir fuel handle left b_login pdu w ≡ ok (consume, end)
      → (consume ≤ length left) × (size end.0.block ≡ size pdu.block)
  unfolding process_loop
  process_loop-le zero handle left b_login pdu w h = ground (arith, h)
  process_loop-le (suc fuel) handle [] b_login pdu w h = ground (arith, h)
  process_loop-le (suc fuel) handle (b ∷ bs) b_login pdu w {consume} {end} h =
      let ((len, pdu'), e, h1) =
        >>=-eq-ok (parse_packet2 (b ∷ bs) (record pdu { b_enable = false })) _ h in
      let used = parse_packet2-le (b ∷ bs) (record pdu { b_enable = false }) e in
      elim (Bool-cases (len == 0)) [
        | inl z ↦
            let same = ok_inv (rw z at h1) in
            (
              subst (λ k. k ≤ length (b ∷ bs)) (ap (λ x. x.0) same) (omega arith),
              ap (λ x. size x.1.0.block) (sym same) ∙ used.1,
            )
        | inr z ↦
            let (w1, _, h2) =
              >>=-eq-ok (handle_enabled s dir handle pdu' b_login w) _ (rw z at h1) in
            let ((consume', end'), e3, h3) =
              >>=-eq-ok (process_loop s dir fuel handle (drop len (b ∷ bs)) b_login pdu' w1) _ h2 in
            let (within, same) =
              process_loop-le fuel handle (drop len (b ∷ bs)) b_login pdu' w1 e3 in
            let last = ok_inv h3 in
            let total : len + consume' ≡ consume = ap (λ x. x.0) last in
            (
              omega (arith, total, within, used.0, length-drop {0} len (b ∷ bs)),
              ap (λ x. size x.1.0.block) (sym last) ∙ same ∙ used.1,
            )
      ]

  -- What `protocol_adapter_process_data` reports as used is at most what it was given.
  pub process_data-le :
      (handle : ℤ) (buffer : Bytes) (b_login : Bool) (w : W) {consume : ℕ} {w' : W}
      → protocol_adapter_process_data s dir handle buffer b_login w ≡ ok (consume, w')
      → consume ≤ length buffer
  unfolding protocol_adapter_process_data
  process_data-le handle buffer b_login w h =
      let ((packet, w1), _, h1) = >>=-eq-ok (s.packet_pool_get_pdu_buf (pos 4096) w) _ h in
      elim (Option-cases packet) [
        | inl e ↦ subst (λ k. k ≤ length buffer) (ap (λ x. x.0) (ok_inv (rw e at h1))) (omega arith)
        | inr (p, e) ↦
            let ((used, end), e2, h2) =
              >>=-eq-ok (process_loop s dir (length buffer) handle buffer b_login p.un_pdu w1) _
                (rw e at h1) in
            let (_, _, h3) = >>=-eq-ok (s.packet_pool_set (with_pdu p end.0) end.1) _ h2 in
            subst (λ k. k ≤ length buffer) (ap (λ x. x.0) (ok_inv h3))
              (process_loop-le (length buffer) handle buffer b_login p.un_pdu w1 e2).0
      ]

  -- A datagram of which nothing can be used, as one that ends within a packet, costs a packet: it was
  -- taken from the pool and is never given back.
  pub process_udp_data_leak :
      (handle : ℤ) (buffer : Bytes) (w w1 : W) (p : Packet) (pdu : Pdu)
      → s.packet_pool_get_pdu_buf (pos 4096) w ≡ ok (some p, w1)
      → parse_packet2 buffer (record p.un_pdu { b_enable = false }) ≡ ok (0, pdu)
      → protocol_adapter_process_udp_data s dir handle buffer w ≡ ok w1
  unfolding protocol_adapter_process_udp_data
  process_udp_data_leak handle buffer w w1 p pdu got parsed = rw (got, parsed)
