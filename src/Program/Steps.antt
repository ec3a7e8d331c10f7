-- ===== src/Program/Steps.antt =====
-- What happens to the program: connections come and go, and bytes and datagrams are handled.
use ccc_upgrade.Base.{ℕ, ◌≡◌, Bool, true, Option}
use ccc_upgrade.Base.Bytes.{Bytes, ok}
use ccc_upgrade.Base.Int.{ℤ}
use ccc_upgrade.Client.{
  Slot, get, accept_client, internal_client_manager_close, client_manager_init,
}
use ccc_upgrade.Program.{Machine, World, callback_by_network_manager, udp_round}

-- Who makes the step: the accept loop, the receive loop of a slot, the UDP loop, or the system.
pub data Actor : Type 0 where
  accepting serving_udp system : Actor
  receiving : Slot → Actor

module _ {X : Type 0} (m : Machine X) (dir : Option Bytes) where
  -- A receive loop passes the bytes on with the index and the login of its slot, as they stand in the
  -- table, which may be those of a later connection on the slot; a loop that ends closes its slot. What another thread does while bytes are handled is a
  -- step before or after.
  pub data Step : Actor → World X → World X → Type 0 where
    accept :
        (w : World X) (created : Bool) (sock : ℤ) (ip_addr : Bytes) (port : ℤ)
        → Step accepting w
            (record w { clients = accept_client created w.clients sock ip_addr port })
    received :
        (s : Slot) (buffer : Bytes) {w w' : World X} {consume : ℕ}
        → callback_by_network_manager m dir (get w.clients s).ix buffer (get w.clients s).b_login w
          ≡ ok (consume, w')
        → Step (receiving s) w w'
    closing :
        (s : Slot) (w : World X)
        → Step (receiving s) w (record w {
          clients = (internal_client_manager_close w.clients (get w.clients s).ix).1;
        })
    datagram :
        (received_ : Option (ℤ × Bytes)) {w w' : World X}
        → udp_round m dir true received_ w ≡ ok w'
        → Step serving_udp w w'
    elsewhere : (w : World X) (x : X) → Step system w (record w { outside = x })

  -- The worlds that come from a start of the program, after `client_manager_init`.
  pub data Reach (w : World X) : World X → Type 0 where
    start : Reach w (record w { clients = client_manager_init w.clients })
    later : {v u : World X} (a : Actor) → Reach w v → Step a v u → Reach w u
