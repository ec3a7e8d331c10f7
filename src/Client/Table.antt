-- ===== src/Client/Table.antt =====
-- The connection table: at most one client is logged in, and no step of another client changes that.
use ccc_upgrade.Base.{
  ◌≤◌, ◌<◌, ◌≡◌, ◌⊎◌, inl, inr, Bool, true, false, Option, none, some, ◌∷◌, arith, Option-cases,
  length,
}
use ccc_upgrade.Base.Int.{ℤ, pos, negsuc}
use ccc_upgrade.Base.Bytes.{Bytes}
use ccc_upgrade.Client.{
  send_socket, Slot, first, second, Clients, slot_of, get, other, is_positive, tcp_close,
  close_slot, internal_client_manager_close, free_slot, internal_client_manager_new, login_slot,
  internal_client_manager_login, client_manager_reg, accept_client, client_manager_init,
}

-- A logged-in slot is in use, and the two slots are not both logged in.
pub record IsValid (c : Clients) : Type 0 where
  pub login0 : (c.slot0.b_login ≡ false) ⊎ (c.slot0.b_valid ≡ true)
  pub login1 : (c.slot1.b_login ≡ false) ⊎ (c.slot1.b_valid ≡ true)
  pub single : (c.slot0.b_login ≡ false) ⊎ (c.slot1.b_login ≡ false)
  pub index0 : c.slot0.ix ≡ pos 0
  pub index1 : c.slot1.ix ≡ pos 1

-- What the program does to the table: `client_manager_init`, an accepted connection, a login, and
-- the end of a receive loop, which closes the slot of its connection.
pub data Step : Clients → Clients → Type 0 where
  init : (c : Clients) → Step c (client_manager_init c)
  accept :
      (c : Clients) (created : Bool) (sock : ℤ) (ip_addr : Bytes) (port : ℤ)
      → Step c (accept_client created c sock ip_addr port)
  login : (c : Clients) (ix : ℤ) → Step c (internal_client_manager_login c ix).1
  closing : (c : Clients) (ix : ℤ) → Step c (internal_client_manager_close c ix).1

pub data Reach (c : Clients) : Clients → Type 0 where
  here : Reach c c
  next : {d e : Clients} → Reach c d → Step d e → Reach c e

pub client_manager_init-IsValid : (c : Clients) → IsValid (client_manager_init c)
unfolding client_manager_init
client_manager_init-IsValid c = ground arith

close_slot-IsValid : (c : Clients) (s : Slot) → IsValid c → IsValid (close_slot c s)
unfolding close_slot
close_slot-IsValid c first v = ground arith
close_slot-IsValid c second v = ground arith

login_slot-IsValid : (c : Clients) (s : Slot) → IsValid c → IsValid (login_slot c s).1
unfolding login_slot close_slot
login_slot-IsValid c first v = ground arith
login_slot-IsValid c second v = ground arith

new-IsValid :
    (c : Clients) (sock : ℤ) (ip : Option Bytes) (port : ℤ)
    → IsValid c
    → IsValid (internal_client_manager_new c sock ip port).1
unfolding internal_client_manager_new free_slot
new-IsValid c sock none port v = v
new-IsValid c sock (some ip) port v = ground arith

accept_client-IsValid :
    (c : Clients) (created : Bool) (sock : ℤ) (ip : Bytes) (port : ℤ)
    → IsValid c
    → IsValid (accept_client created c sock ip port)
unfolding accept_client client_manager_reg
accept_client-IsValid c created sock ip port v = ground (arith, new-IsValid c sock (some ip) port v)

pub Step-IsValid : {c d : Clients} → Step c d → IsValid c → IsValid d
unfolding internal_client_manager_login internal_client_manager_close
Step-IsValid (init c) v = client_manager_init-IsValid c
Step-IsValid (accept c created sock ip port) v = accept_client-IsValid c created sock ip port v
Step-IsValid (login c ix) v = elim (Option-cases (slot_of ix)) [
  | inl out ↦ rw (out, internal_client_manager_login) v
  | inr (s, e) ↦ rw (e, internal_client_manager_login) (login_slot-IsValid c s v)
]
Step-IsValid (closing c ix) v = elim (Option-cases (slot_of ix)) [
  | inl out ↦ rw (out, internal_client_manager_close) v
  | inr (s, e) ↦ rw (e, internal_client_manager_close) (close_slot-IsValid c s v)
]

-- In every table that the program reaches from `client_manager_init`, in any order of connections,
-- logins and disconnections, a logged-in slot is in use, at most one slot is logged in, and each
-- slot carries its own index.
pub Reach-IsValid : (c : Clients) {d : Clients} → Reach (client_manager_init c) d → IsValid d
Reach-IsValid c here = client_manager_init-IsValid c
Reach-IsValid c (next r st) = Step-IsValid st (Reach-IsValid c r)

-- A login on a slot in use succeeds, logs this slot in and leaves it as it was otherwise; the other
-- slot is emptied, and its socket is closed if it has one.
pub internal_client_manager_login_takes :
    (c : Clients) (ix : ℤ) (s : Slot)
    → slot_of ix ≡ some s
    → (get c s).b_valid ≡ true
    → let (done, c') = internal_client_manager_login c ix in
      (done ≡ true)
      × (get c' s ≡ record (get c s) { b_login = true })
      × ((get c' (other s)).b_valid ≡ false)
      × ((get c' (other s)).b_login ≡ false)
      × ((get c' (other s)).sock ≡ negsuc 0)
      × (c'.closed ≡ tcp_close (get c (other s)).sock c.closed)
unfolding internal_client_manager_login login_slot close_slot tcp_close
internal_client_manager_login_takes c ix first e v = ground arith
internal_client_manager_login_takes c ix second e v = ground arith

-- A new connection whose address is a string of 1 to 64 bytes takes a slot that is not logged in:
-- in a valid table it does not start as a logged-in connection, and the other slot, where a
-- logged-in client may be, is untouched. No socket is closed.
pub internal_client_manager_new_takes :
    (c : Clients) (sock port : ℤ) (ip : Bytes)
    → IsValid c
    → 0 < length ip
    → length ip ≤ 64
    → let (slot, c') = internal_client_manager_new c sock (some ip) port in
      let s = free_slot c in
      (slot ≡ some s)
      × ((get c s).b_login ≡ false)
      × ((get c' s).b_login ≡ false)
      × ((get c' s).b_valid ≡ true)
      × ((get c' s).sock ≡ sock)
      × (get c' (other s) ≡ get c (other s))
      × (c'.closed ≡ c.closed)
unfolding internal_client_manager_new free_slot
internal_client_manager_new_takes c sock port ip v lo hi = ground arith

-- Two connections that arrive while nobody is logged in share the first slot, and the first one's
-- socket is forgotten: the end of the first connection's receive loop, which closes the slot by its
-- index, closes the second one's socket and empties the slot under it.
pub accept_client_steals :
    (c : Clients) (a b port : ℤ) (ip : Bytes)
    → c.slot0.b_login ≡ false
    → is_positive a ≡ true
    → is_positive b ≡ true
    → 0 < length ip
    → length ip ≤ 64
    → let c2 = accept_client true (accept_client true c a ip port) b ip port in
      let c3 = (internal_client_manager_close c2 (pos 0)).1 in
      (c2.slot0.sock ≡ b) × (c3.closed ≡ b ∷ c.closed) × (c3.slot0.b_valid ≡ false)
unfolding accept_client client_manager_reg internal_client_manager_new free_slot
    internal_client_manager_close close_slot tcp_close
accept_client_steals c a b port ip nologin pa pb lo hi = ground arith

-- Two connections that arrive while nobody is logged in get the same slot for their receive loops. When
-- the client of the second one logs in, the slot that the first one's loop reads `b_login` from is
-- logged in too, so what the first client sends from then on counts as sent by a client that is logged
-- in, and the answers go to the socket of the second.
pub accept_client_shares_login :
    (c : Clients) (a b port : ℤ) (ip : Bytes)
    → c.slot0.b_login ≡ false
    → 0 < length ip
    → length ip ≤ 64
    → let c1 = accept_client true c a ip port in
      let c2 = accept_client true c1 b ip port in
      let c3 = (internal_client_manager_login c2 (pos 0)).1 in
      ((internal_client_manager_new c a (some ip) port).0 ≡ some first)
      × ((internal_client_manager_new c1 b (some ip) port).0 ≡ some first)
      × ((get c3 first).b_login ≡ true)
      × (send_socket c3 (pos 0) ≡ some b)
unfolding accept_client client_manager_reg internal_client_manager_new free_slot
    internal_client_manager_login login_slot close_slot send_socket
accept_client_shares_login c a b port ip nologin lo hi = ground arith
