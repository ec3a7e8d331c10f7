-- ===== src/Start/Tests.antt =====
-- Starts on a system where all calls succeed.
use ccc_upgrade.Base.{◌≡◌, refl, Bool, true, false, none, some, [], ◌∷◌}
use ccc_upgrade.Base.Bytes.{Bytes, codes, Run, ok, fault}
use ccc_upgrade.Base.Int.{pos, negsuc}
use ccc_upgrade.Client.{
  first, free_slot, Slot, get, internal_client_manager_close, accept_client, client_manager_reg,
  internal_client_manager_new,
}
use ccc_upgrade.Net.Setup.{Sockets, tp_server_bind, tp_server_accept}
use ccc_upgrade.Program.Events.{Connection, connects, ends}
use ccc_upgrade.Program.Tests.{machine, world}
use ccc_upgrade.Start.{
  Meanwhile, System, Boot, open_tcp, accept_early, start_accepting, init_clients, tcp_server_start,
  main,
}
use ccc_upgrade.Start.Early.{tcp_server_start_forgets}

abbrev good_sockets : Sockets Bytes
good_sockets = record {
  socket_stream = λ x. (pos 3, x);
  socket_dgram = λ x. (pos 4, x);
  setsockopt = λ sock x. (pos 0, x);
  bind = λ sock port x. (pos 0, x);
  listen = λ sock maximum x. (pos 0, x);
  close = λ sock x. (pos 0, x);
  malloc_params = λ x. (true, x);
  thread_create = λ x. (true, x);
}

abbrev good : System Bytes
good = record {
  machine = machine;
  sockets = good_sockets;
  getcwd = λ x. (some (codes "/opt"), x);
  daemon = λ x. (pos 0, x);
}

abbrev boot : Boot Bytes
boot = record {
  world = world;
  workdir_upgrade = none;
  upgrade_temp_dir = none;
  sock_tcp_server = negsuc 0;
  network_callback = false;
  udp_server_callback = false;
  accepting = false;
}

abbrev visitor : Connection
visitor = record { created = true; sock = pos 9; ip_addr = codes "10.0.0.2"; ip_port = pos 5000 }

-- A client comes while the socket for datagrams is bound, and goes before datagrams are served.
abbrev busy : Meanwhile
busy = record {
  before_socket = [];
  before_bind = connects visitor ∷ [];
  before_serving = ends first ∷ [];
}

abbrev result_of : Boot Bytes → Run (Bool × Boot Bytes) → Boot Bytes
result_of other fault = other
result_of other (ok a) = a.1

abbrev served : Boot Bytes
served = result_of boot (main good (connects visitor ∷ []) busy boot)

abbrev tcp_started : Boot Bytes
tcp_started = result_of boot (tcp_server_start good (pos 7000) (connects visitor ∷ []) boot)

tcp_started_lem :
    tcp_server_start good (pos 7000) (connects visitor ∷ []) boot ≡ ok (true, tcp_started)
unfolding tcp_server_start open_tcp tp_server_bind start_accepting tp_server_accept init_clients
tcp_started_lem = refl

-- The socket 9 of the visitor is in no list of closed sockets.
visitor_lem : (accept_early good (connects visitor ∷ []) world.clients).closed ≡ []
unfolding accept_early accept_client client_manager_reg internal_client_manager_new free_slot
visitor_lem = refl

tcp_server_start_forgets_example :
    (tcp_started.world.clients.closed
      ≡ (accept_early good (connects visitor ∷ []) world.clients).closed)
    × ((s : Slot)
        → ((get tcp_started.world.clients s).b_valid ≡ false)
          × ((internal_client_manager_close tcp_started.world.clients
                (get tcp_started.world.clients s).ix).1.closed
              ≡ tcp_started.world.clients.closed))
tcp_server_start_forgets_example =
    tcp_server_start_forgets good (pos 7000) (connects visitor ∷ []) boot tcp_started_lem
