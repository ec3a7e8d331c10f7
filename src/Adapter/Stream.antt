-- ===== src/Adapter/Stream.antt =====
-- src/protocol_adapter/protocol_adapter.c: the packets of a TCP stream and of a datagram.
pub mod Frames
pub mod Login
pub mod Password
pub mod Bounds
pub mod Keeps
use ccc_upgrade.Base.{
  ℕ, zero, suc, ◌+◌, Bool, false, Option, none, some, [], ◌∷◌, ◌==◌, if◌then◌else◌, length, drop,
}
use ccc_upgrade.Base.Bytes.{Bytes, Run, ok, ◌>>=◌}
use ccc_upgrade.Base.Int.{ℤ, pos}
use ccc_upgrade.Protocol.{Pdu, parse_packet2}
use ccc_upgrade.Packet.{Packet}
use ccc_upgrade.Services.{Services}
use ccc_upgrade.Adapter.{process_protocol_pdu}

abbrev pub proto_data_len_max : ℕ
proto_data_len_max = 4096

-- The packet as `packet_pool_set` gets it: its buffer is the memory that `un.pdu.data` addresses.
abbrev pub with_pdu : Packet → Pdu → Packet
with_pdu p pdu = record p { un_pdu = pdu; buffer = pdu.block }

module _ {W : Type 0} (s : Services W) (dir : Option Bytes) where
  -- An enabled packet is handled, for a client that was logged in when the bytes came.
  unfoldable pub handle_enabled : ℤ → Pdu → Bool → W → Run W
  handle_enabled handle pdu b_login w =
      if pdu.b_enable
      then (do (_, w) ← process_protocol_pdu s dir handle pdu b_login w; ok w)
      else ok w

  -- The loop of `protocol_adapter_process_data` on the bytes that are left. Every round uses at
  -- least one byte, so their number is enough fuel.
  unfoldable pub process_loop : ℕ → ℤ → Bytes → Bool → Pdu → W → Run (ℕ × (Pdu × W))
  process_loop zero handle left b_login pdu w = ok (0, (pdu, w))
  process_loop (suc fuel) handle [] b_login pdu w = ok (0, (pdu, w))
  process_loop (suc fuel) handle (b ∷ bs) b_login pdu w = do
    (len, pdu) ← parse_packet2 (b ∷ bs) (record pdu { b_enable = false })
    if len == 0 then ok (0, (pdu, w)) else (do
      w ← handle_enabled handle pdu b_login w
      (consume, end) ← process_loop fuel handle (drop len (b ∷ bs)) b_login pdu w
      ok (len + consume, end))

  -- `protocol_adapter_process_data` on the view of `data_len` bytes at `buffer`. `data_len` is an `int`,
  -- so a view has less than 2 ^ 31 bytes: the receive loop hands on 8192 at most, from `main_buf`.
  unfoldable pub protocol_adapter_process_data : ℤ → Bytes → Bool → W → Run (ℕ × W)
  protocol_adapter_process_data handle buffer b_login w = do
    (packet, w) ← s.packet_pool_get_pdu_buf (pos proto_data_len_max) w
    elim packet [
      | none ↦ ok (0, w)
      | some p ↦ do
        (consume, (pdu, w)) ← process_loop (length buffer) handle buffer b_login p.un_pdu w
        (_, w) ← s.packet_pool_set (with_pdu p pdu) w
        ok (consume, w)
    ]

  -- `protocol_adapter_process_udp_data`, for a datagram of at most 1024 bytes: where nothing was parsed the packet is not given back.
  pub protocol_adapter_process_udp_data : ℤ → Bytes → W → Run W
  protocol_adapter_process_udp_data handle buffer w = do
    (packet, w) ← s.packet_pool_get_pdu_buf (pos proto_data_len_max) w
    elim packet [
      | none ↦ ok w
      | some p ↦ do
        (len, pdu) ← parse_packet2 buffer (record p.un_pdu { b_enable = false })
        if len == 0 then ok w else (do
          w ← handle_enabled handle pdu false w
          (_, w) ← s.packet_pool_set (with_pdu p pdu) w
          ok w)
    ]
