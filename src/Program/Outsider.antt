-- ===== src/Program/Outsider.antt =====
-- Only the receive loops of a slot that is logged in have a hand in an upload.
use ccc_upgrade.Base.{◌≡◌, refl, true, false, Option, none, some, ◌==◌, length, take}
use ccc_upgrade.Base.Bytes.{Bytes, ok}
use ccc_upgrade.Base.Int.{ℤ}
use ccc_upgrade.Base.Holds.{returns, Holds-ok, Holds-if}
use ccc_upgrade.Client.{get}
use ccc_upgrade.Files.{UploadFile}
use ccc_upgrade.Adapter.Keeps.{KeepsState, Keeps}
use ccc_upgrade.Adapter.Stream.Keeps.{process_data-Leaves, process_udp_data-Keeps}
use ccc_upgrade.Program.{
  client_set_login, Machine, World, services, callback_by_network_manager, callback_by_udp_server,
  udp_round, udp_server_output_client_data,
}
use ccc_upgrade.Program.Keeps.{services-Keeps}
use ccc_upgrade.Program.Steps.{
  Actor, accepting, serving_udp, system, receiving, Step, accept, received, closing, datagram,
  elsewhere,
}

-- The step is not one of a receive loop whose slot is logged in when it is made.
abbrev pub IsOutsider : {X : Type 0} → World X → Actor → Type 0
IsOutsider w accepting = Unit
IsOutsider w serving_udp = Unit
IsOutsider w system = Unit
IsOutsider w (receiving s) = (get w.clients s).b_login ≡ false

abbrev HasUpload : {X : Type 0} → UploadFile → World X → Type 0
HasUpload u w = w.upload ≡ u

upload-Keeps : {X : Type 0} (m : Machine X) (u : UploadFile) → Keeps (HasUpload u) (services m)
upload-Keeps m u =
    services-Keeps m (HasUpload u) (λ w pool x h. h) (λ handle w. ok (client_set_login handle w))
      (λ handle w h. returns h)

udp_round-HasUpload :
    {X : Type 0} (m : Machine X) (dir : Option Bytes) (u : UploadFile)
    (received_ : Option (ℤ × Bytes)) (w : World X)
    → HasUpload u w
    → KeepsState (HasUpload u) (udp_round m dir true received_ w)
unfolding udp_round udp_server_output_client_data callback_by_udp_server
udp_round-HasUpload m dir u none w h = returns h
udp_round-HasUpload m dir u (some (remote_addr, buffer)) w h =
    Holds-if (length buffer == 0) _ _ (returns h) (
      process_udp_data-Keeps (HasUpload u) (services m) (upload-Keeps m u) dir remote_addr
        (take 1024 buffer) w h)

-- No step but one of a receive loop whose slot is logged in at that time changes the upload in progress:
-- neither new connections, datagrams, ends of connections, nor any bytes that are handed on while the
-- slot is not logged in, even if they hold a login. A receive loop is known by its slot alone, which the
-- loops of two connections can share: it is the slot, not the client behind the bytes, that is logged in.
pub Step-upload :
    {X : Type 0} (m : Machine X) (dir : Option Bytes) (a : Actor) {w w' : World X}
    → Step m dir a w w'
    → IsOutsider w a
    → w'.upload ≡ w.upload
unfolding callback_by_network_manager callback_by_udp_server
Step-upload m dir accepting (accept w created sock ip_addr port) out = refl
Step-upload m dir (receiving _) (received s buffer {w} e) out =
    Holds-ok
      (process_data-Leaves (HasUpload w.upload) (services m) (upload-Keeps m w.upload) dir false tt
        (get w.clients s).ix buffer w refl)
      (rw out at e)
Step-upload m dir (receiving _) (closing s w) out = refl
Step-upload m dir serving_udp (datagram received_ {w} e) out =
    Holds-ok (udp_round-HasUpload m dir w.upload received_ w refl) e
Step-upload m dir system (elsewhere w x) out = refl
