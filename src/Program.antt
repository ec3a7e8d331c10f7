-- ===== src/Program.antt =====
-- The parts put together: src/network/network_manager.c, src/network/udp_server.c and
-- src/main/ccc_upgrade.c pass the calls of the adapter on to the other parts.
pub mod Login
pub mod Steps
pub mod Leak
pub mod Safe
pub mod Keeps
pub mod Outsider
pub mod Password
pub mod Answer
pub mod Upload
pub mod Rounds
pub mod Pieces
pub mod Events
mod Far
pub mod Verdict
pub mod Session
pub mod Tests
mod StepTests
mod SessionTests
mod PasswordTests
mod LeakTests
use ccc_upgrade.Base.{ℕ, Bool, false, Option, none, some, List, ◌==◌, if◌then◌else◌, length, take}
use ccc_upgrade.Base.Bytes.{Bytes, codes, Run, ok, ◌>>=◌}
use ccc_upgrade.Base.Int.{ℤ}
use ccc_upgrade.Util.Os.{Os}
use ccc_upgrade.Packet.{Packet}
use ccc_upgrade.Pool.{
  Heap, Pool, Memory, packet_pool_set, packet_pool_get_buffer, packet_pool_get_pdu_buf,
}
use ccc_upgrade.Client.{Clients, internal_client_manager_login, send_socket}
use ccc_upgrade.Net.{tcp_send, udp_sendto}
use ccc_upgrade.Files.{
  UploadFile, file_upload_open, file_upload_write, file_upload_single_finish, file_execute_script,
}
use ccc_upgrade.Services.{Interface, Services}
use ccc_upgrade.Adapter.Stream.{protocol_adapter_process_data, protocol_adapter_process_udp_data}

-- The system below the program, with the state `X`. `memory` is what `malloc` offers for a packet and its
-- buffer, asked for before it is known whether they are needed, and `fresh_node` the address that it
-- offers for a node of the pool.
pub record Machine (X : Type 0) : Type 0 where
  pub os : Os X
  pub send : ℤ → Bytes → X → ℤ × X
  pub sendto : ℤ → ℤ → Bytes → X → ℤ × X
  pub memory : X → Memory × X
  pub fresh_node : Heap → X → Option ℕ × X
  pub getifaddrs : X → Option (List Interface) × X
  pub gethostname : X → Option Bytes × X

-- The static variables of the program: `g_packet_list_idle`, `l_connect_info`, `l_upload_current` and
-- `l_sock_udp_server`.
pub record World (X : Type 0) : Type 0 where
  pub pool : Pool
  pub clients : Clients
  pub upload : UploadFile
  pub sock_udp_server : ℤ
  pub outside : X

-- A step of the system alone.
abbrev pub below : {X A : Type 0} → (X → A × X) → World X → A × World X
below f w = let (a, x) = f w.outside in (a, record w { outside = x })

-- A step of the pool, with the memory that there is.
abbrev pub in_pool :
    {X : Type 0}
    → Machine X
    → (Memory → Pool → Run (Option Packet × Pool))
    → World X
    → Run (Option Packet × World X)
in_pool m f w = do
  let (memory, x) = m.memory w.outside
  (packet, pool) ← f memory w.pool
  ok (packet, record w { pool = pool; outside = x })

unfoldable pub set_packet : {X : Type 0} → Machine X → Packet → World X → Run (Bool × World X)
set_packet m p w = do
  let (fresh, x) = m.fresh_node w.pool.heap w.outside
  (done, pool) ← packet_pool_set fresh w.pool (some p)
  ok (done, record w { pool = pool; outside = x })

-- `network_manager_client_send`, `client_manager_send` and `internal_client_manager_send`
abbrev pub client_send : {X : Type 0} → Machine X → ℤ → Bytes → World X → Bool × World X
client_send m handle data_ w = elim (send_socket w.clients handle) [
  | none ↦ (false, w)
  | some sock ↦ below (tcp_send m.send sock (some data_)) w
]

-- `network_manager_client_set_login` and `client_manager_login`
abbrev pub client_set_login : {X : Type 0} → ℤ → World X → Bool × World X
client_set_login handle w =
    let (done, clients) = internal_client_manager_login w.clients handle in
    (done, record w { clients = clients })

abbrev pub upload_step :
    {X : Type 0} → (UploadFile → X → Bool × (UploadFile × X)) → World X → Bool × World X
upload_step f w =
    let (done, (upload, x)) = f w.upload w.outside in
    (done, record w { upload = upload; outside = x })

abbrev pub finish_step : {X : Type 0} → Machine X → Bytes → World X → Run (Bool × World X)
finish_step m md5sum w = do
  (done, (upload, x)) ← file_upload_single_finish m.os md5sum w.upload w.outside
  ok (done, record w { upload = upload; outside = x })

abbrev pub reboot_command : Bytes
reboot_command = codes "/sbin/reboot"

-- What the adapter calls, of the parts as they are.
abbrev pub services : {X : Type 0} → Machine X → Services (World X)
services m = record {
  packet_pool_get_buffer =
      λ size. in_pool m (λ memory pool. packet_pool_get_buffer memory pool size);
  packet_pool_get_pdu_buf =
      λ size. in_pool m (λ memory pool. packet_pool_get_pdu_buf memory pool size);
  packet_pool_set = set_packet m;
  network_manager_client_send = λ handle data_ w. ok (client_send m handle data_ w);
  network_manager_client_set_login = λ handle w. ok (client_set_login handle w);
  udp_server_send =
      λ handle data_ w. ok (below (udp_sendto m.sendto w.sock_udp_server handle (some data_)) w);
  file_upload_open = λ dir title w. ok (upload_step (file_upload_open m.os dir (some title)) w);
  file_upload_write = λ offset data_ w. ok (below (file_upload_write m.os offset data_ w.upload) w);
  file_upload_single_finish = finish_step m;
  file_execute_script = λ dir title w. ok (below (file_execute_script m.os dir (some title)) w);
  reboot_device = λ w. ok (record w { outside = (m.os.system reboot_command w.outside).1 });
  malloc = λ size. below (m.os.malloc size);
  getifaddrs = below m.getifaddrs;
  gethostname = below m.gethostname;
}

-- `callback_by_network_manager`
unfoldable pub callback_by_network_manager :
    {X : Type 0} → Machine X → Option Bytes → ℤ → Bytes → Bool → World X → Run (ℕ × World X)
callback_by_network_manager m dir = protocol_adapter_process_data (services m) dir

-- `callback_by_udp_server`
unfoldable pub callback_by_udp_server :
    {X : Type 0} → Machine X → Option Bytes → ℤ → Bytes → World X → Run (World X)
callback_by_udp_server m dir = protocol_adapter_process_udp_data (services m) dir

module _ {X : Type 0} (m : Machine X) (dir : Option Bytes) where
  -- `udp_server_output_client_data`; `callback` is whether `l_udp_server_callback` is set.
  unfoldable pub udp_server_output_client_data : Bool → ℤ → Bytes → World X → Run (World X)
  udp_server_output_client_data callback remote_addr buffer w =
      if callback then callback_by_udp_server m dir remote_addr buffer w else ok w

  -- A round of `thread_func_udp_server`: `udp_recvfrom` fails or has no bytes, or it delivers a datagram
  -- of a sender, of at most 1024 bytes.
  unfoldable pub udp_round : Bool → Option (ℤ × Bytes) → World X → Run (World X)
  udp_round callback none w = ok w
  udp_round callback (some (remote_addr, buffer)) w =
      if length buffer == 0
      then ok w
      else udp_server_output_client_data callback remote_addr (take 1024 buffer) w
