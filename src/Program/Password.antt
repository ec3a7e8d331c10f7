-- ===== src/Program/Password.antt =====
-- Without the password nobody logs in.
use ccc_upgrade.Base.{
  ◌≡◌, refl, sym, ap, subst, ◌∙◌, Bool, true, false, Option, none, some, [], arith, ◌==◌, length,
  take, All,
}
use ccc_upgrade.Base.Bytes.{Bytes, IsByte, Run, ok, ok_inv}
use ccc_upgrade.Base.Int.{ℤ}
use ccc_upgrade.Base.Holds.{returns, Holds-ok, Holds-pure, Holds-if}
use ccc_upgrade.Client.{
  Slot, first, second, Clients, get, accept_client, client_manager_reg, internal_client_manager_new,
  free_slot, close_slot, internal_client_manager_close, client_manager_init,
}
use ccc_upgrade.Files.{file_upload_single_finish}
use ccc_upgrade.Adapter.Keeps.{KeepsState, Leaves, Keeps, KeepsFiles}
use ccc_upgrade.Adapter.Stream.Keeps.{Allowed, process_data-Leaves, process_udp_data-Keeps}
use ccc_upgrade.Adapter.Stream.Password.{HoldsPassword, with_login}
use ccc_upgrade.Adapter.Stream.Password.Data.{process_data-with_login, process_udp_data-with_login}
use ccc_upgrade.Program.{
  Machine, World, services, callback_by_network_manager, callback_by_udp_server, udp_round,
  udp_server_output_client_data,
}
use ccc_upgrade.Program.Keeps.{services-Keeps}
use ccc_upgrade.Program.Steps.{
  accepting, serving_udp, system, receiving, Actor, Step, accept, received, closing, datagram,
  elsewhere, Reach, start, later,
}
use ccc_upgrade.Program.Outsider.{Step-upload, IsOutsider}

-- The bytes that come in with a step.
abbrev pub input :
    {X : Type 0} {m : Machine X} {dir : Option Bytes} {a : Actor} {w w' : World X}
    → Step m dir a w w'
    → Bytes
input (accept w created sock ip_addr port) = []
input (received s buffer e) = buffer
input (closing s w) = []
input (datagram none e) = []
input (datagram (some (remote_addr, buffer)) e) = take 1024 buffer
input (elsewhere w x) = []

abbrev pub LacksPassword : Bytes → Type 0
LacksPassword bytes = All IsByte bytes × (¬ HoldsPassword bytes)

-- No bytes that come in on the way hold the password.
abbrev pub IsPasswordless :
    {X : Type 0} {m : Machine X} {dir : Option Bytes} {w v : World X} → Reach m dir w v → Type 0
IsPasswordless start = Unit
IsPasswordless (later a r st) = IsPasswordless r × LacksPassword (input st)

abbrev HasClients : {X : Type 0} → Clients → World X → Type 0
HasClients c w = w.clients ≡ c

abbrev no_login : {X : Type 0} → ℤ → World X → Run (Bool × World X)
no_login handle w = ok (true, w)

module _ {X : Type 0} (m : Machine X) (c : Clients) where
  clients-Keeps : Keeps (HasClients c) (with_login no_login (services m))
  clients-Keeps =
      services-Keeps m (HasClients c) (λ w pool x h. h) no_login (λ handle w h. returns h)

  clients-KeepsFiles : KeepsFiles (HasClients c) (with_login no_login (services m))
  clients-KeepsFiles = record {
    open_file = λ dir title w h. returns h;
    write_file = λ offset data_ w h. returns h;
    finish_file = λ md5sum w h.
        Holds-pure (file_upload_single_finish m.os md5sum w.upload w.outside) _ λ r. returns h;
    execute = λ dir title w h. returns h;
    reboot = λ w h. returns h;
  }

  allowed : (b_login : Bool) → Allowed (HasClients c) (with_login no_login (services m)) b_login
  allowed true = clients-KeepsFiles
  allowed false = tt

  module _ (dir : Option Bytes) (handle : ℤ) (buffer : Bytes) (w : World X)
      (lacks : LacksPassword buffer) (h : HasClients c w) where
    bytes-HasClients :
        (b_login : Bool)
        → Leaves (HasClients c) (callback_by_network_manager m dir handle buffer b_login w)
    unfolding callback_by_network_manager
    bytes-HasClients b_login =
        subst (Leaves (HasClients c))
          (process_data-with_login no_login (services m) dir handle buffer w lacks.0 lacks.1
            b_login)
          (process_data-Leaves (HasClients c) (with_login no_login (services m)) clients-Keeps dir
            b_login (allowed b_login) handle buffer w h)

    datagram-HasClients : KeepsState (HasClients c) (callback_by_udp_server m dir handle buffer w)
    unfolding callback_by_udp_server
    datagram-HasClients =
        subst (KeepsState (HasClients c))
          (process_udp_data-with_login no_login (services m) dir handle buffer w lacks.0 lacks.1)
          (process_udp_data-Keeps (HasClients c) (with_login no_login (services m)) clients-Keeps
            dir handle buffer w h)

-- What the steps on the table do to the logins.
abbrev logged_in : Clients → Slot → Bool
logged_in c s = (get c s).b_login

accept_client-login :
    (created : Bool) (c : Clients) (sock : ℤ) (ip_addr : Bytes) (port : ℤ) (s : Slot)
    → logged_in (accept_client created c sock ip_addr port) s ≡ logged_in c s
unfolding accept_client client_manager_reg internal_client_manager_new free_slot
accept_client-login created c sock ip_addr port first = ground arith
accept_client-login created c sock ip_addr port second = ground arith

init-login : (c : Clients) (s : Slot) → logged_in (client_manager_init c) s ≡ false
unfolding client_manager_init
init-login c first = refl
init-login c second = refl

close-login :
    (c : Clients) (ix : ℤ) (s : Slot)
    → logged_in c s ≡ false
    → logged_in (internal_client_manager_close c ix).1 s ≡ false
unfolding internal_client_manager_close close_slot
close-login c ix first h = ground arith
close-login c ix second h = ground arith

module _ {X : Type 0} (m : Machine X) (dir : Option Bytes) where
  -- Bytes without the password log nobody in.
  Step-login :
      {a : Actor} {w w' : World X} (st : Step m dir a w w')
      → LacksPassword (input st)
      → (s : Slot) → logged_in w.clients s ≡ false
      → logged_in w'.clients s ≡ false
  unfolding udp_round udp_server_output_client_data
  Step-login (accept w created sock ip_addr port) lacks s h =
      accept_client-login created w.clients sock ip_addr port s ∙ h
  Step-login (received t buffer {w} {w'} e) lacks s h =
      ap (λ c. logged_in c s)
        (Holds-ok
          (bytes-HasClients m w.clients dir (get w.clients t).ix buffer w lacks refl
            (get w.clients t).b_login)
          e)
      ∙ h
  Step-login (closing t w) lacks s h = close-login w.clients (get w.clients t).ix s h
  Step-login (datagram none {w} {w'} e) lacks s h =
      ap (λ v. logged_in v.clients s) (sym (ok_inv e)) ∙ h
  Step-login (datagram (some (remote_addr, buffer)) {w} {w'} e) lacks s h =
      ap (λ c. logged_in c s)
        (Holds-ok
          (Holds-if (length buffer == 0) (ok w) _ (returns refl)
            (datagram-HasClients m w.clients dir remote_addr (take 1024 buffer) w lacks refl))
          e)
      ∙ h
  Step-login (elsewhere w x) lacks s h = h

  outsider :
      (a : Actor) (w : World X) → ((s : Slot) → logged_in w.clients s ≡ false) → IsOutsider w a
  outsider accepting w h = tt
  outsider serving_udp w h = tt
  outsider system w h = tt
  outsider (receiving s) w h = h s

  -- In every run of the program from its start in which what comes in, from clients and in datagrams, is
  -- made of bytes and never holds the password, in any order of connections, bytes, datagrams and ends
  -- of connections, no client is ever logged in, and the upload in progress is never changed. To hold
  -- the password is to have, anywhere in the bytes, a frame of the command for a login whose text, up to
  -- its first NUL, is the password.
  pub Reach-no_login :
      {w v : World X} (r : Reach m dir w v)
      → IsPasswordless r
      → ((s : Slot) → (get v.clients s).b_login ≡ false) × (v.upload ≡ w.upload)
  Reach-no_login start h = (init-login _, refl)
  Reach-no_login (later {v = u} a r st) (h, lacks) =
      let (nobody, same) = Reach-no_login r h in
      ((λ s. Step-login st lacks s (nobody s)), Step-upload m dir a st (outsider a u nobody) ∙ same)
