-- ===== src/Start.antt =====
-- src/main/main.c, src/main/ccc_upgrade.c and the starts of the services in src/network: how the program
-- comes up. `early` is what the accept loop and the receive loops do before the table is set up.
mod Ready
mod Early
mod Tests
use ccc_upgrade.Base.{
  ◌+◌, Bool, true, false, not, Option, none, some, List, [], ◌∷◌, if◌then◌else◌, length,
}
use ccc_upgrade.Base.Bytes.{Bytes, Run, ok, fault, ◌>>=◌}
use ccc_upgrade.Base.Int.{ℤ, pos}
use ccc_upgrade.Client.{
  Clients, get, internal_client_manager_close, accept_client, client_manager_init,
}
use ccc_upgrade.Configure.{load_configure}
use ccc_upgrade.Net.Setup.{
  Sockets, is_zero, is_negative, tp_server_bind, tp_server_accept, udp_server_bind,
}
use ccc_upgrade.Program.{Machine, World}
use ccc_upgrade.Program.Events.{Event, connects, sends, ends, happen_all}

pub record System (X : Type 0) : Type 0 where
  pub machine : Machine X
  pub sockets : Sockets X
  pub getcwd : X → Option Bytes × X
  pub daemon : X → ℤ × X

-- What the accept loop and the receive loops do after `client_manager_init`, while `udp_server_start` sets
-- its socket up: before the socket is made, before it is bound, and before datagrams are served.
pub record Meanwhile : Type 0 where
  pub before_socket : List Event
  pub before_bind : List Event
  pub before_serving : List Event

-- `World` with the variables that are only set at the start: `l_workdir_upgrade`,
-- `l_upgrade_temp_dir`, `l_sock_tcp_server`, whether the callbacks `l_network_callback` and
-- `l_udp_server_callback` are set, and whether the accept loop runs.
pub record Boot (X : Type 0) : Type 0 where
  pub world : World X
  pub workdir_upgrade : Option Bytes
  pub upgrade_temp_dir : Option Bytes
  pub sock_tcp_server : ℤ
  pub network_callback : Bool
  pub udp_server_callback : Bool
  pub accepting : Bool

abbrev pub Stage : Type 0 → Type 0
Stage X = Boot X → Run (Bool × Boot X)

-- `if(!f()) return 0;` and then `g`
infixl 5 ◌&>◌
abbrev pub ◌&>◌ : {X : Type 0} → Stage X → Stage X → Stage X
◌&>◌ f g b = do (done, b') ← f b; if done then g b' else ok (false, b')

-- A stage that only calls the system.
abbrev pub calls : {X : Type 0} → (X → Bool × X) → Stage X
calls f b =
    let (done, x) = f b.world.outside in
    ok (done, record b { world = record b.world { outside = x } })

module _ {X : Type 0} (sys : System X) where
  unfoldable pub protocol_adapter_init : Stage X
  protocol_adapter_init b = elim b.workdir_upgrade [
    | none ↦ fault
    | some upgrade_dir ↦
        let (got, x) = sys.machine.os.malloc (length upgrade_dir + 1) b.world.outside in
        ok (
          got,
          record b {
            upgrade_temp_dir = (if got then some upgrade_dir else none);
            world = record b.world { outside = x };
          },
        )
  ]

  unfoldable pub open_tcp : Stage X
  open_tcp b =
      let (sock, x) = sys.sockets.socket_stream b.world.outside in
      ok (
        not (is_negative sock),
        record b { sock_tcp_server = sock; world = record b.world { outside = x } },
      )

  -- The table after what happens before `client_manager_init`. No callback is set then, so the bytes of a
  -- connection are not handed on, but one that ends closes its slot by the index that stands there.
  unfoldable pub accept_early : List Event → Clients → Clients
  accept_early [] c = c
  accept_early (connects conn ∷ early) c =
      accept_early early (accept_client conn.created c conn.sock conn.ip_addr conn.ip_port)
  accept_early (sends s buffer ∷ early) c = accept_early early c
  accept_early (ends s ∷ early) c =
      accept_early early (internal_client_manager_close c (get c s).ix).1

  unfoldable pub start_accepting : List Event → Stage X
  start_accepting early b =
      let (done, x) = tp_server_accept sys.sockets b.world.outside in
      ok (
        done,
        record b {
          accepting = done;
          world =
              (if done
                then record b.world { outside = x; clients = accept_early early b.world.clients }
                else record b.world { outside = x });
        },
      )

  unfoldable pub init_clients : Stage X
  init_clients b = ok (
    true,
    record b {
      network_callback = true;
      world = record b.world { clients = client_manager_init b.world.clients };
    },
  )

  unfoldable pub tcp_server_start : ℤ → List Event → Stage X
  tcp_server_start tcp_port early =
      open_tcp
      &> (λ b. calls (tp_server_bind sys.sockets b.sock_tcp_server tcp_port (pos 256)) b)
      &> start_accepting early
      &> init_clients

  unfoldable pub open_udp : Stage X
  open_udp b =
      let (sock, x) = sys.sockets.socket_dgram b.world.outside in
      ok (
        not (is_negative sock),
        record b { world = record b.world { outside = x; sock_udp_server = sock } },
      )

  -- The other threads go on, with the directory that the adapter has.
  unfoldable pub during : List Event → Stage X
  during events b = do
    w ← happen_all sys.machine b.upgrade_temp_dir events b.world
    ok (true, record b { world = w })

  -- A start that succeeds does not return: it serves datagrams for ever.
  unfoldable pub udp_server_start : ℤ → Bool → Meanwhile → Stage X
  udp_server_start port callback meanwhile =
      (λ b. ok (callback, b))
      &> during meanwhile.before_socket
      &> open_udp
      &> during meanwhile.before_bind
      &> (λ b. calls (udp_server_bind sys.sockets b.world.sock_udp_server port) b)
      &> (λ b. ok (true, record b { udp_server_callback = true }))
      &> during meanwhile.before_serving

  unfoldable pub start_ccc : ℤ → List Event → Meanwhile → Stage X
  start_ccc server_port early meanwhile =
      protocol_adapter_init
      &> tcp_server_start server_port early
      &> udp_server_start server_port true meanwhile

  unfoldable pub configured : Stage X
  configured b =
      let (done, (workdir, x)) = load_configure sys.machine.os sys.getcwd b.world.outside in
      ok (done, record b { workdir_upgrade = workdir; world = record b.world { outside = x } })

  -- `main` of a version that is no debug version: true if it comes to serve datagrams, false if it ends
  -- with -1.
  unfoldable pub main : List Event → Meanwhile → Stage X
  main early meanwhile =
      calls (λ x. (is_zero (sys.daemon x).0, (sys.daemon x).1))
      &> configured
      &> start_ccc (pos 7000) early meanwhile
