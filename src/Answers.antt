-- ===== src/Answers.antt =====
-- src/protocol_adapter/protocol_adapter.c: what is sent back, and the answer to a search for the device.
use ccc_upgrade.Base.{
  ℕ, ◌+◌, ◌/◌, ◌%◌, ◌^◌, Bool, true, false, none, some, List, [], ◌∷◌, ltb, leb, if◌then◌else◌,
  length, replicate,
}
use ccc_upgrade.Base.Bytes.{Bytes, Run, ok, fault, ◌>>=◌, store, load}
use ccc_upgrade.Base.Int.{ℤ, pos}
use ccc_upgrade.Protocol.{create_protocol_packet}
use ccc_upgrade.Services.{Services, Interface, no_address, other_family, inet}

abbrev pub protocol_data_size_max : ℕ
protocol_data_size_max = 4096

abbrev pub discover_device : ℕ
discover_device = 0xE0

-- `append_data` at the offset `at` of `info`; the length that it adds, and the buffer.
unfoldable pub append_data : ℕ → Bytes → Bytes → Run (ℕ × Bytes)
append_data at data_ info = if ltb 1024 (length data_) then ok (0, info) else (do
  info ← store at ((length data_ / 2 ^ 8 % 256) ∷ (length data_ % 256) ∷ []) info
  info ← store (at + 2) data_ info
  ok (length data_ + 2, info))

module _ {W : Type 0} (s : Services W) where
  -- `send_reply_to_client` and `send_reply_to_udp`, which differ in the call that sends. A packet of
  -- no size is not sent. The log output is left out.
  unfoldable pub send_reply : (Bytes → W → Run (Bool × W)) → ℕ → ℕ → Bytes → W → Run (Bool × W)
  send_reply send cmd cmd_ex data_ w = do
    (packet, w) ← s.packet_pool_get_buffer (pos protocol_data_size_max) w
    elim packet [
      | none ↦ ok (false, w)
      | some p ↦ do
        (packet_size, buffer) ←
            create_protocol_packet cmd cmd_ex (some data_) (length data_) p.buffer
              protocol_data_size_max
        (result, w) ← elim buffer [
          | none ↦ ok (false, w)
          | some out ↦
              if leb packet_size 0
              then ok (false, w)
              else (do view ← load packet_size out; send view w)
        ]
        (_, w) ← s.packet_pool_set (record p { buffer = buffer }) w
        ok (result, w)
    ]

  abbrev pub send_reply_to_udp : ℤ → ℕ → ℕ → Bytes → W → Run (Bool × W)
  send_reply_to_udp handle = send_reply (s.udp_server_send handle)

  abbrev pub send_reply_to_client : ℤ → ℕ → ℕ → Bytes → W → Run (Bool × W)
  send_reply_to_client handle = send_reply (s.network_manager_client_send handle)

  -- The body of the loop of `send_ip` for a running IPv4 interface.
  unfoldable pub send_one_ip : ℤ → Bytes → Bytes → W → Run W
  send_one_ip handle hostname ipaddr w = do
    (len1, info) ← append_data 0 ipaddr (replicate 2048 0)
    (len2, info) ← append_data len1 hostname info
    view ← load (len1 + len2) info
    (_, w) ← send_reply_to_udp handle discover_device 1 view w
    ok w

  unfoldable pub send_interface : ℤ → Bytes → Interface → W → Run W
  send_interface handle hostname ifa w = elim ifa.ifa_addr [
    | no_address ↦ fault
    | other_family ↦ ok w
    | inet ipaddr ↦
        if ifa.loopback
        then ok w
        else if ifa.running
        then send_one_ip handle hostname ipaddr w
        else ok w
  ]

  unfoldable pub send_interfaces : ℤ → Bytes → List Interface → W → Run W
  send_interfaces handle hostname [] w = ok w
  send_interfaces handle hostname (ifa ∷ list) w = do
    w ← send_interface handle hostname ifa w
    send_interfaces handle hostname list w

  unfoldable pub send_ip : ℤ → W → Run (Bool × W)
  send_ip handle w =
      let (list, w1) = s.getifaddrs w in
      elim list [
        | none ↦ ok (false, w1)
        | some interfaces ↦
            let (name, w2) = s.gethostname w1 in
            elim name [
              | none ↦ ok (false, w2)
              | some hostname ↦ do w3 ← send_interfaces handle hostname interfaces w2; ok (true, w3)
            ]
      ]
