-- ===== src/Program/Events.antt =====
-- What the accept loop and the threads of the connections do, as events that can be run.
use ccc_upgrade.Base.{◌≡◌, subst, Bool, true, false, Option, List, [], ◌∷◌}
use ccc_upgrade.Base.Bytes.{>>=-eq-ok, Bytes, Run, ok, ◌>>=◌, ok_inv}
use ccc_upgrade.Base.Int.{ℤ}
use ccc_upgrade.Base.Holds.{returns, Holds-ok, Holds-pure}
use ccc_upgrade.Client.{Slot, get, accept_client, internal_client_manager_close}
use ccc_upgrade.Files.{file_upload_single_finish}
use ccc_upgrade.Adapter.Keeps.{Keeps, KeepsFiles}
use ccc_upgrade.Adapter.Stream.Keeps.{Allowed, process_data-Leaves}
use ccc_upgrade.Program.{Machine, World, services, client_set_login, callback_by_network_manager}
use ccc_upgrade.Program.Keeps.{services-Keeps}
use ccc_upgrade.Client.Table

-- A connection as the accept loop gets it; `created` is whether its thread can be started.
pub record Connection : Type 0 where
  pub created : Bool
  pub sock : ℤ
  pub ip_addr : Bytes
  pub ip_port : ℤ

-- The accept loop takes a connection, or the receive loop of a slot hands bytes on or ends.
pub data Event : Type 0 where
  connects : Connection → Event
  sends : Slot → Bytes → Event
  ends : Slot → Event

-- The table is valid, and the socket for datagrams is the given one.
pub record HasTable {X : Type 0} (sock : ℤ) (w : World X) : Type 0 where
  pub table : Table.IsValid w.clients
  pub socket : w.sock_udp_server ≡ sock

module _ {X : Type 0} (m : Machine X) (dir : Option Bytes) where
  unfoldable pub happen : Event → World X → Run (World X)
  happen (connects conn) w = ok (record w {
    clients = accept_client conn.created w.clients conn.sock conn.ip_addr conn.ip_port;
  })
  happen (sends s buffer) w = do
    (_, w') ←
        callback_by_network_manager m dir (get w.clients s).ix buffer (get w.clients s).b_login w
    ok w'
  happen (ends s) w =
      ok (record w { clients = (internal_client_manager_close w.clients (get w.clients s).ix).1 })

  unfoldable pub happen_all : List Event → World X → Run (World X)
  happen_all [] w = ok w
  happen_all (event ∷ events) w = do w' ← happen event w; happen_all events w'

  module _ (sock : ℤ) where
    table-Keeps : Keeps (HasTable sock) (services m)
    table-Keeps =
        services-Keeps m (HasTable sock)
          (λ w pool x h. record { table = h.table; socket = h.socket })
          (λ handle w. ok (client_set_login handle w))
          λ handle w h. returns (record {
            table = Table.Step-IsValid (Table.login w.clients handle) h.table;
            socket = h.socket;
          })

    table-KeepsFiles : KeepsFiles (HasTable sock) (services m)
    table-KeepsFiles = record {
      open_file = λ dir title w h. returns (record { table = h.table; socket = h.socket });
      write_file = λ offset data_ w h. returns (record { table = h.table; socket = h.socket });
      finish_file = λ md5sum w h.
          Holds-pure (file_upload_single_finish m.os md5sum w.upload w.outside) _
            λ r. returns (record { table = h.table; socket = h.socket });
      execute = λ dir title w h. returns (record { table = h.table; socket = h.socket });
      reboot = λ w h. returns (record { table = h.table; socket = h.socket });
    }

    allowed : (b_login : Bool) → Allowed (HasTable sock) (services m) b_login
    allowed true = table-KeepsFiles
    allowed false = tt

    pub happen-HasTable :
        (event : Event) {w w' : World X}
        → happen event w ≡ ok w'
        → HasTable sock w
        → HasTable sock w'
    unfolding happen callback_by_network_manager
    happen-HasTable (connects conn) {w} e h = subst (HasTable sock) (ok_inv e) (record {
      table =
          Table.Step-IsValid
            (Table.accept w.clients conn.created conn.sock conn.ip_addr conn.ip_port) h.table;
      socket = h.socket;
    })
    happen-HasTable (sends s buffer) {w} e h =
        let ((n, w1), got, same) =
          >>=-eq-ok
            (callback_by_network_manager m dir (get w.clients s).ix buffer (get w.clients s).b_login
              w)
            _ e in
        subst (HasTable sock) (ok_inv same) (
          Holds-ok
            (process_data-Leaves (HasTable sock) (services m) table-Keeps dir
              (get w.clients s).b_login (allowed (get w.clients s).b_login) (get w.clients s).ix
              buffer w h)
            got)
    happen-HasTable (ends s) {w} e h = subst (HasTable sock) (ok_inv e) (record {
      table = Table.Step-IsValid (Table.closing w.clients (get w.clients s).ix) h.table;
      socket = h.socket;
    })

    pub happen_all-HasTable :
        (events : List Event) {w w' : World X}
        → happen_all events w ≡ ok w'
        → HasTable sock w
        → HasTable sock w'
    unfolding happen_all
    happen_all-HasTable [] e h = subst (HasTable sock) (ok_inv e) h
    happen_all-HasTable (event ∷ events) {w} e h =
        let (w1, got, rest) = >>=-eq-ok (happen event w) _ e in
        happen_all-HasTable events rest (happen-HasTable event got h)
