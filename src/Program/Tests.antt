-- ===== src/Program/Tests.antt =====
-- A login on a system that sends everything at once.
use ccc_upgrade.Base.{
  zero, ◌≡◌, refl, true, false, none, some, [], ◌∷◌, ◌++◌, arith, length, take, replicate,
  length-replicate,
}
use ccc_upgrade.Base.Bytes.{Bytes, ok, ◌>>=◌, c_string}
use ccc_upgrade.Base.Int.{ℤ, pos}
use ccc_upgrade.Util.Os.{Os}
use ccc_upgrade.Protocol.{Pdu}
use ccc_upgrade.Protocol.Frame.{frame}
use ccc_upgrade.Packet.{Packet, type_normal}
use ccc_upgrade.Packet.Laws.{IsMalloc}
use ccc_upgrade.Pool.{Memory, idle}
use ccc_upgrade.Pool.Ring.{IsRing}
use ccc_upgrade.Client.{ConnectInfo, internal_client_manager_login}
use ccc_upgrade.Configure.{password}
use ccc_upgrade.Files.{no_upload}
use ccc_upgrade.Adapter.{process_protocol_client_login}
use ccc_upgrade.Program.{Machine, World, client_send, set_packet, services}
use ccc_upgrade.Program.Login.{HasMemory, client_login-program}

abbrev pub login_pdu : Pdu
login_pdu = record {
  cmd = 0xE1;
  cmd_ex = 1;
  block = some password;
  data_len = pos 13;
  checksum1 = 0;
  checksum2 = 0;
  b_enable = true;
}

abbrev pub any_packet : Packet
any_packet = record {
  data_type = type_normal;
  un_pdu = login_pdu;
  buffer = none;
  buffer_size = 0;
  data_len = 0;
  private_data1 = pos 0;
  private_data2 = pos 0;
  private_data3 = pos 0;
}

abbrev pub plenty : Memory
plenty = record { packet = some any_packet; block = λ n. some (replicate n 0) }

-- The state is what was sent.
abbrev pub files : Os Bytes
files = record {
  malloc = λ size x. (true, x);
  access = λ path x. (true, x);
  mkdir = λ path x. (true, x);
  chmod = λ path x. (true, x);
  system = λ path x. (pos 0, x);
  fopen_write = λ path x. (some 3, x);
  fopen_read = λ path x. (some [], x);
  fclose = λ handle x. x;
  fseek = λ handle offset x. (true, x);
  fwrite = λ handle data_ x. (length data_, x);
}

abbrev pub machine : Machine Bytes
machine = record {
  os = files;
  send = λ sock data_ x. (pos (length data_), x ++ data_);
  sendto = λ sock address data_ x. (pos (length data_), x ++ data_);
  memory = λ x. (plenty, x);
  fresh_node = λ heap x. (some 1, x);
  getifaddrs = λ x. (some [], x);
  gethostname = λ x. (some [], x);
}

abbrev pub connected : ℤ → ConnectInfo
connected k = record {
  b_valid = true;
  b_login = false;
  ix = k;
  connect_no = pos 0;
  sock = pos 5;
  ip_address = [];
  ip_port = pos 0;
}

abbrev pub world : World Bytes
world = record {
  pool = idle (λ a. none);
  clients = record { slot0 = connected (pos 0); slot1 = connected (pos 1); closed = [] };
  upload = no_upload;
  sock_udp_server = pos 4;
  outside = [];
}

pub idle-IsRing : IsRing world.pool [] []
idle-IsRing = record {
  chain = tt;
  distinct = tt;
  at_head = refl;
  at_tail = refl;
  size = refl;
  count = refl;
}

pub plenty-IsMalloc : IsMalloc plenty.block
plenty-IsMalloc = λ n. length-replicate {0} n zero

machine-HasMemory : HasMemory machine []
machine-HasMemory = record {
  spare = any_packet;
  for_packet = refl;
  sized = plenty-IsMalloc;
  for_buffer = λ e. cc;
}

text_lem : c_string (take 13 password) ≡ password
unfolding c_string
text_lem = refl

client_login-program_example :
    (w' : World Bytes) × (p : Packet) × (process_protocol_client_login
        (services machine)
        (pos 0)
        login_pdu
        world
      ≡ (do
        let (result, w2) = client_send machine (pos 0) (frame 0xE1 1 (0xFE ∷ [])) w'
        (_, w3) ← set_packet machine p w2
        ok (result, w3)))
    × (w'.clients ≡ (internal_client_manager_login world.clients (pos 0)).1)
    × (w'.upload ≡ no_upload)
client_login-program_example =
    client_login-program machine (pos 0) login_pdu password 13 world [] [] [] idle-IsRing tt refl
      refl (omega arith) (omega arith) text_lem refl machine-HasMemory
