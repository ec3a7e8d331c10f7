-- ===== src/Client/Tests.antt =====
-- Runs of the client table and of the receive loop.
use ccc_upgrade.Base.{ℕ, ◌+◌, ◌-◌, ◌≡◌, refl, true, false, some, [], ◌∷◌, ◌++◌, arith, length, drop}
use ccc_upgrade.Base.Bytes.{Bytes, Run, ok, fault}
use ccc_upgrade.Base.Int.{pos, negsuc}
use ccc_upgrade.Client.{
  send_socket, client_manager_reg, ConnectInfo, first, second, Clients, get, other,
  internal_client_manager_close, free_slot, internal_client_manager_new,
  internal_client_manager_login, accept_client, client_manager_init, tcp_close, Receiver, receive,
}
use ccc_upgrade.Client.Table.{
  IsValid, Reach, here, next, accept, login, Reach-IsValid, internal_client_manager_login_takes,
  internal_client_manager_new_takes, accept_client_steals, accept_client_shares_login,
}
use ccc_upgrade.Client.Receive.{pending, receive-pending, receive_overrun}

abbrev zero_slot : ConnectInfo
zero_slot = record {
  b_valid = false;
  b_login = false;
  ix = pos 0;
  connect_no = pos 0;
  sock = pos 0;
  ip_address = [];
  ip_port = pos 0;
}

abbrev zeroed : Clients
zeroed = record { slot0 = zero_slot; slot1 = zero_slot; closed = [] }

abbrev address : Bytes
address = 49 ∷ 46 ∷ 50 ∷ []

abbrev started : Clients
started = client_manager_init zeroed

-- The table after a client has come on socket 5, and after it has logged in.
abbrev arrived : Clients
arrived = accept_client true started (pos 5) address (pos 80)

abbrev logged_in : Clients
logged_in = (internal_client_manager_login arrived (pos 0)).1

abbrev two_steps : Reach started logged_in
two_steps = next (next here (accept started true (pos 5) address (pos 80))) (login arrived (pos 0))

Reach-IsValid_example : IsValid logged_in
Reach-IsValid_example = Reach-IsValid zeroed two_steps

internal_client_manager_login_takes_example :
    let (done, c') = internal_client_manager_login arrived (pos 0) in
    (done ≡ true)
    × (get c' first ≡ record (get arrived first) { b_login = true })
    × ((get c' second).b_valid ≡ false)
    × ((get c' second).b_login ≡ false)
    × ((get c' second).sock ≡ negsuc 0)
    × (c'.closed ≡ tcp_close (get arrived second).sock arrived.closed)
unfolding client_manager_init accept_client client_manager_reg internal_client_manager_new free_slot
internal_client_manager_login_takes_example =
    internal_client_manager_login_takes arrived (pos 0) first refl refl

internal_client_manager_new_takes_example :
    let (slot, c') = internal_client_manager_new logged_in (pos 6) (some address) (pos 81) in
    let s = free_slot logged_in in
    (slot ≡ some s)
    × ((get logged_in s).b_login ≡ false)
    × ((get c' s).b_login ≡ false)
    × ((get c' s).b_valid ≡ true)
    × ((get c' s).sock ≡ pos 6)
    × (get c' (other s) ≡ get logged_in (other s))
    × (c'.closed ≡ logged_in.closed)
internal_client_manager_new_takes_example =
    internal_client_manager_new_takes logged_in (pos 6) (pos 81) address
      (Reach-IsValid zeroed two_steps) (omega arith) (omega arith)

accept_client_steals_example :
    let c2 =
      accept_client true
        (accept_client true started (pos 5) address (pos 80))
        (pos 6)
        address
        (pos 80) in
    let c3 = (internal_client_manager_close c2 (pos 0)).1 in
    (c2.slot0.sock ≡ pos 6) × (c3.closed ≡ pos 6 ∷ started.closed) × (c3.slot0.b_valid ≡ false)
unfolding client_manager_init
accept_client_steals_example =
    accept_client_steals started (pos 5) (pos 6) (pos 80) address refl refl refl (omega arith)
      (omega arith)

accept_client_shares_login_example :
    let c1 = accept_client true started (pos 5) address (pos 80) in
    let c2 = accept_client true c1 (pos 6) address (pos 80) in
    let c3 = (internal_client_manager_login c2 (pos 0)).1 in
    ((internal_client_manager_new started (pos 5) (some address) (pos 80)).0 ≡ some first)
    × ((internal_client_manager_new c1 (pos 6) (some address) (pos 80)).0 ≡ some first)
    × ((get c3 first).b_login ≡ true)
    × (send_socket c3 (pos 0) ≡ some (pos 6))
unfolding client_manager_init
accept_client_shares_login_example =
    accept_client_shares_login started (pos 5) (pos 6) (pos 80) address refl (omega arith)
      (omega arith)

-- A callback that uses two bytes, and a buffer of six bytes where one is waiting.
abbrev use_two : Bytes → ℕ → Run (ℕ × ℕ)
use_two view w = ok (2, w + length view)

abbrev waiting_one : Receiver
waiting_one = record { main_buf = 1 ∷ 0 ∷ 0 ∷ 0 ∷ 0 ∷ 0 ∷ []; recv_len = pos 1 }

receive-pending_example :
    (r' : Receiver) × (receive use_two (2 ∷ 3 ∷ 4 ∷ []) waiting_one 0 ≡ ok (r', 4))
    × (r'.recv_len ≡ pos (1 + 3 - 2))
    × (pending (1 + 3 - 2) r' ≡ drop 2 (pending 1 waiting_one ++ (2 ∷ 3 ∷ 4 ∷ [])))
    × (length r'.main_buf ≡ length waiting_one.main_buf)
receive-pending_example =
    receive-pending use_two (2 ∷ 3 ∷ 4 ∷ []) waiting_one 0 4 1 2 refl (omega arith) refl
      (omega arith)

receive_overrun_example : receive use_two (2 ∷ 3 ∷ 4 ∷ 5 ∷ 6 ∷ 7 ∷ []) waiting_one 0 ≡ fault
receive_overrun_example =
    receive_overrun use_two (2 ∷ 3 ∷ 4 ∷ 5 ∷ 6 ∷ 7 ∷ []) waiting_one 0 1 refl (omega arith)
