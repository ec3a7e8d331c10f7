-- ===== src/Adapter/Stream/Keeps.antt =====
-- What the calls of the adapter keep, the handling of bytes keeps.
use ccc_upgrade.Base.{
  ℕ, zero, suc, inl, inr, Bool, true, false, Option, [], ◌∷◌, ◌==◌, if◌then◌else◌, Option-cases,
  length, drop,
}
use ccc_upgrade.Base.Bytes.{Bytes, ok}
use ccc_upgrade.Base.Int.{ℤ, pos}
use ccc_upgrade.Base.Holds.{Holds, returns, Holds-bind, Holds-pure, Holds-if}
use ccc_upgrade.Protocol.{Pdu, parse_packet2}
use ccc_upgrade.Services.{Services}
use ccc_upgrade.Answers.{send_ip}
use ccc_upgrade.Adapter.{
  process_protocol_pdu_after_login, process_protocol_pdu, process_protocol_discover_device,
}
use ccc_upgrade.Adapter.Stream.{
  with_pdu, handle_enabled, process_loop, protocol_adapter_process_data,
  protocol_adapter_process_udp_data,
}
use ccc_upgrade.Adapter.Keeps.{
  Leaves, KeepsState, Keeps, KeepsFiles, Leaves-bind, give_back-Leaves, send_ip-Leaves,
  client_login-Leaves,
}
use ccc_upgrade.Adapter.Keeps.Files.{after_login-Leaves}

-- Files are only kept by what may use them: for a client that is not logged in nothing is asked of them.
abbrev pub Allowed : {W : Type 0} → (W → Type 0) → Services W → Bool → Type 0
Allowed P s true = KeepsFiles P s
Allowed P s false = Unit {0}

module _ {W : Type 0} (P : W → Type 0) (s : Services W) (kept : Keeps P s)
    (dir : Option Bytes) where
  pdu-Leaves :
      (b_login : Bool) (handle : ℤ) (pdu : Pdu) (w : W)
      → Allowed P s b_login
      → P w
      → Leaves P (process_protocol_pdu s dir handle pdu b_login w)
  unfolding process_protocol_pdu process_protocol_discover_device
  pdu-Leaves b_login handle pdu w files h =
      Holds-if (pdu.cmd == 0xE0) _ _
        (Leaves-bind P s kept (send_ip s handle w) _ (send_ip-Leaves P s kept handle w h)
          λ x h. returns h)
        (Holds-if (pdu.cmd == 0xE1) _ _ (client_login-Leaves P s kept handle pdu w h)
          (logged_in b_login files))
    where
      logged_in :
          (b : Bool)
          → Allowed P s b
          → Leaves P
              (if b then process_protocol_pdu_after_login s dir handle pdu w else ok (false, w))
      logged_in true files = after_login-Leaves P s kept files dir handle pdu w h
      logged_in false files = returns h

  module _ (b_login : Bool) (files : Allowed P s b_login) (handle : ℤ) where
    handle_enabled-Keeps :
        (pdu : Pdu) (w : W) → P w → KeepsState P (handle_enabled s dir handle pdu b_login w)
    unfolding handle_enabled
    handle_enabled-Keeps pdu w h =
        Holds-if pdu.b_enable _ _
          (Holds-bind (λ x. P x.1) (process_protocol_pdu s dir handle pdu b_login w) _
            (pdu-Leaves b_login handle pdu w files h) λ x h. returns h)
          (returns h)

    process_loop-Keeps :
        (fuel : ℕ) (left : Bytes) (pdu : Pdu) (w : W)
        → P w
        → Holds (λ x. P x.1.1) (process_loop s dir fuel handle left b_login pdu w)
    unfolding process_loop
    process_loop-Keeps zero left pdu w h = returns h
    process_loop-Keeps (suc fuel) [] pdu w h = returns h
    process_loop-Keeps (suc fuel) (b ∷ bs) pdu w h =
        Holds-pure (parse_packet2 (b ∷ bs) (record pdu { b_enable = false })) _ λ (len, pdu).
          Holds-if (len == 0) _ _ (returns h) (
            Holds-bind P (handle_enabled s dir handle pdu b_login w) _
              (handle_enabled-Keeps pdu w h)
              λ w h.
                Holds-bind (λ x. P x.1.1)
                  (process_loop s dir fuel handle (drop len (b ∷ bs)) b_login pdu w) _
                  (process_loop-Keeps fuel (drop len (b ∷ bs)) pdu w h) λ x h. returns h)

    pub process_data-Leaves :
        (buffer : Bytes) (w : W)
        → P w
        → Leaves P (protocol_adapter_process_data s dir handle buffer b_login w)
    unfolding protocol_adapter_process_data
    process_data-Leaves buffer w h =
        Leaves-bind P s kept (s.packet_pool_get_pdu_buf (pos 4096) w) _
          (kept.get_pdu_buf (pos 4096) w h)
          λ (packet, w) h. elim (Option-cases packet) [
            | inl e ↦ rw e (returns h)
            | inr (p, e) ↦ rw e (
                Holds-bind (λ x. P x.1.1)
                  (process_loop s dir (length buffer) handle buffer b_login p.un_pdu w) _
                  (process_loop-Keeps (length buffer) buffer p.un_pdu w h)
                  λ (used, (pdu, w)) h. give_back-Leaves P s kept (with_pdu p pdu) used w h)
          ]

  pub process_udp_data-Keeps :
      (handle : ℤ) (buffer : Bytes) (w : W)
      → P w
      → KeepsState P (protocol_adapter_process_udp_data s dir handle buffer w)
  unfolding protocol_adapter_process_udp_data
  process_udp_data-Keeps handle buffer w h =
      Holds-bind (λ x. P x.1) (s.packet_pool_get_pdu_buf (pos 4096) w) _
        (kept.get_pdu_buf (pos 4096) w h)
        λ (packet, w) h. elim (Option-cases packet) [
          | inl e ↦ rw e (returns h)
          | inr (p, e) ↦ rw e (
              Holds-pure (parse_packet2 buffer (record p.un_pdu { b_enable = false })) _
                λ (len, pdu). Holds-if (len == 0) _ _ (returns h) (
                  Holds-bind P (handle_enabled s dir handle pdu false w) _
                    (handle_enabled-Keeps false tt handle pdu w h)
                    λ w h.
                      Holds-bind (λ x. P x.1) (s.packet_pool_set (with_pdu p pdu) w) _
                        (kept.set_packet (with_pdu p pdu) w h) λ x h. returns h))
        ]
