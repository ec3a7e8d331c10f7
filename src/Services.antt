-- ===== src/Services.antt =====
-- What src/protocol_adapter/protocol_adapter.c calls of the other parts.
use ccc_upgrade.Base.{ℕ, Bool, Option, List}
use ccc_upgrade.Base.Bytes.{Bytes, Run}
use ccc_upgrade.Base.Int.{ℤ}
use ccc_upgrade.Packet.{Packet}

-- An entry of `getifaddrs`: `ifa_addr` may be NULL, or is an IPv4 address, in dots, or another one.
pub data Address : Type 0 where
  no_address other_family : Address
  inet : Bytes → Address

pub record Interface : Type 0 where
  pub ifa_addr : Address
  pub loopback : Bool
  pub running : Bool

-- The calls of src/packet_pool, src/network, src/file_manager and src/utils, and of the C library. A
-- handle is a connection's index or the address of an UDP client.
pub record Services (W : Type 0) : Type 0 where
  pub packet_pool_get_buffer : ℤ → W → Run (Option Packet × W)
  pub packet_pool_get_pdu_buf : ℤ → W → Run (Option Packet × W)
  pub packet_pool_set : Packet → W → Run (Bool × W)
  pub network_manager_client_send : ℤ → Bytes → W → Run (Bool × W)
  pub network_manager_client_set_login : ℤ → W → Run (Bool × W)
  pub udp_server_send : ℤ → Bytes → W → Run (Bool × W)
  pub file_upload_open : Option Bytes → Bytes → W → Run (Bool × W)
  pub file_upload_write : ℤ → Bytes → W → Run (Bool × W)
  pub file_upload_single_finish : Bytes → W → Run (Bool × W)
  pub file_execute_script : Option Bytes → Bytes → W → Run (ℕ × W)
  pub reboot_device : W → Run W
  pub malloc : ℕ → W → Bool × W
  pub getifaddrs : W → Option (List Interface) × W
  pub gethostname : W → Option Bytes × W
