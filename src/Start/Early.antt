-- ===== src/Start/Early.antt =====
-- Connections that are accepted before the table is set up.
use ccc_upgrade.Base.{◌≡◌, refl, ap, true, false, not, List}
use ccc_upgrade.Base.Bytes.{ok}
use ccc_upgrade.Base.Int.{ℤ, pos}
use ccc_upgrade.Client.{
  Slot, first, second, Clients, get, internal_client_manager_close, close_slot, client_manager_init,
}
use ccc_upgrade.Net.Setup.{is_negative, tp_server_bind, tp_server_accept}
use ccc_upgrade.Program.Events.{Event}
use ccc_upgrade.Start.{
  System, Boot, calls, open_tcp, accept_early, start_accepting, init_clients, tcp_server_start,
}
use ccc_upgrade.Start.Ready.{Gives, Gives-seq, leads}

module _ {X : Type 0} (sys : System X) (port : ℤ) (early : List Event) (k : Clients) where
  abbrev Has : Clients → Boot X → Type 0
  Has c b = b.world.clients ≡ c

  start-Gives :
      Gives
        (Has k)
        (tcp_server_start sys port early)
        (Has (client_manager_init (accept_early sys early k)))
  unfolding tcp_server_start open_tcp start_accepting init_clients
  start-Gives =
      Gives-seq _ (init_clients sys)
        (Gives-seq _ (start_accepting sys early) (Gives-seq (open_tcp sys) _ opened bound)
          accepting)
        emptied
    where
      opened : Gives (Has k) (open_tcp sys) (Has k)
      opened = record {
        at = λ b p e.
            leads (Has k) (not (is_negative (sys.sockets.socket_stream b.world.outside).0)) _
              (λ _. p) e;
      }

      bound :
          Gives
            (Has k)
            (λ b. calls (tp_server_bind sys.sockets b.sock_tcp_server port (pos 256)) b)
            (Has k)
      bound = record {
        at = λ b p e.
            leads (Has k)
              (tp_server_bind sys.sockets b.sock_tcp_server port (pos 256) b.world.outside).0 _
              (λ _. p) e;
      }

      accepting : Gives (Has k) (start_accepting sys early) (Has (accept_early sys early k))
      accepting = record {
        at = λ b p e.
            leads (Has (accept_early sys early k)) (tp_server_accept sys.sockets b.world.outside).0
              _ (λ done. rw done (ap (accept_early sys early) p)) e;
      }

      emptied :
          Gives
            (Has (accept_early sys early k))
            (init_clients sys)
            (Has (client_manager_init (accept_early sys early k)))
      emptied = record {
        at = λ b p e.
            leads (Has (client_manager_init (accept_early sys early k))) true _
              (λ _. ap client_manager_init p) e;
      }

-- Connections that the accept loop takes before `client_manager_init` are forgotten: after the start no
-- slot is in use, no socket has been closed but those that were closed before, and when the receive
-- loop of such a connection ends later, which closes its slot by the index, it closes no socket either.
pub tcp_server_start_forgets :
    {X : Type 0} (sys : System X) (port : ℤ) (early : List Event) (b : Boot X) {c : Boot X}
    → tcp_server_start sys port early b ≡ ok (true, c)
    → (c.world.clients.closed ≡ (accept_early sys early b.world.clients).closed)
      × ((s : Slot)
          → ((get c.world.clients s).b_valid ≡ false)
            × ((internal_client_manager_close c.world.clients (get c.world.clients s).ix).1.closed
                ≡ c.world.clients.closed))
unfolding client_manager_init internal_client_manager_close close_slot
tcp_server_start_forgets sys port early b {c} e =
    let table : c.world.clients ≡ client_manager_init (accept_early sys early b.world.clients) =
      (start-Gives sys port early b.world.clients).at b refl e in
    rw table (refl, ends)
  where
    ends :
        (s : Slot)
        → ((get (client_manager_init (accept_early sys early b.world.clients)) s).b_valid ≡ false)
          × ((internal_client_manager_close
                (client_manager_init (accept_early sys early b.world.clients))
                (get (client_manager_init (accept_early sys early b.world.clients)) s).ix).1.closed
              ≡ (accept_early sys early b.world.clients).closed)
    ends first = (refl, refl)
    ends second = (refl, refl)
