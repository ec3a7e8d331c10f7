-- ===== src/Client.antt =====
-- src/network/client_manager.c: the table of connections, and the receive loop of a connection.
-- Its mutex makes each operation on the table one step. An `int` that is a flag is a `Bool`.
pub mod Table
pub mod Receive
mod Tests
use ccc_upgrade.Base.{
  ◌-◌, leb, drop, ℕ, zero, suc, ◌+◌, Bool, true, false, ◌&&◌, Option, none, some, List, ◌∷◌, ltb,
  ◌==◌, if◌then◌else◌, length,
}
use ccc_upgrade.Base.Int.{ℤ, pos, negsuc}
use ccc_upgrade.Base.Bytes.{Bytes, Run, ok, fault, ◌>>=◌, store, load}

abbrev pub client_count_max : ℕ
client_count_max = 2

abbrev pub client_ip_length_max : ℕ
client_ip_length_max = 64

-- `CONNECT_INFO`; `ip_address` is the string that is stored in the field.
pub record ConnectInfo : Type 0 where
  pub b_valid : Bool
  pub b_login : Bool
  pub ix : ℤ
  pub connect_no : ℤ
  pub sock : ℤ
  pub ip_address : Bytes
  pub ip_port : ℤ

-- The places of `l_connect_info`, which has `client_count_max` of them.
pub data Slot : Type 0 where
  first second : Slot

-- `l_connect_info`, with the sockets that `tcp_close` has been called on, the last one first.
pub record Clients : Type 0 where
  pub slot0 : ConnectInfo
  pub slot1 : ConnectInfo
  pub closed : List ℤ

-- The place of an index; `none` is an index that the functions refuse.
abbrev pub slot_of : ℤ → Option Slot
slot_of (pos zero) = some first
slot_of (pos (suc zero)) = some second
slot_of (pos (suc (suc n))) = none
slot_of (negsuc n) = none

abbrev pub get : Clients → Slot → ConnectInfo
get c first = c.slot0
get c second = c.slot1

abbrev pub put : Clients → Slot → ConnectInfo → Clients
put c first x = record c { slot0 = x }
put c second x = record c { slot1 = x }

abbrev pub other : Slot → Slot
other first = second
other second = first

abbrev pub is_positive : ℤ → Bool
is_positive (pos n) = ltb 0 n
is_positive (negsuc n) = false

-- `tcp_close` (src/network/tcp_socket.c): only a positive descriptor is closed.
pub tcp_close : ℤ → List ℤ → List ℤ
tcp_close sock closed = if is_positive sock then sock ∷ closed else closed

unfoldable pub close_slot : Clients → Slot → Clients
close_slot c s =
    let conn = get c s in
    let closed : List ℤ =
      if is_positive conn.sock then tcp_close conn.sock c.closed else c.closed in
    put (record c { closed = closed }) s
      (record conn { b_valid = false; b_login = false; sock = negsuc 0 })

unfoldable pub internal_client_manager_close : Clients → ℤ → Bool × Clients
internal_client_manager_close c ix = elim (slot_of ix) [
  | none ↦ (false, c)
  | some s ↦ (true, close_slot c s)
]

-- The slot that a new connection takes: the second one if a client is logged in at the first.
unfoldable pub free_slot : Clients → Slot
free_slot c = if c.slot0.b_valid && c.slot0.b_login then second else first

unfoldable pub internal_client_manager_new : Clients → ℤ → Option Bytes → ℤ → Option Slot × Clients
internal_client_manager_new c sock none ip_port = (none, c)
internal_client_manager_new c sock (some ip_addr) ip_port =
    if length ip_addr == 0
    then (none, c)
    else if ltb client_ip_length_max (length ip_addr)
    then (none, c)
    else (
      some (free_slot c),
      put c (free_slot c) (record (get c (free_slot c)) {
        ip_address = ip_addr;
        sock = sock;
        ip_port = ip_port;
        b_valid = true;
      }),
    )

pub login_slot : Clients → Slot → Bool × Clients
login_slot c s =
    if (get c s).b_valid
    then (let c' = close_slot c (other s) in
        (true, put c' s (record (get c' s) { b_login = true })))
    else (false, c)

pub internal_client_manager_login : Clients → ℤ → Bool × Clients
internal_client_manager_login c ix = elim (slot_of ix) [
  | none ↦ (false, c)
  | some s ↦ login_slot c s
]

-- The socket that `internal_client_manager_send` sends on; `none` where it returns 0 at once.
pub send_socket : Clients → ℤ → Option ℤ
send_socket c ix = elim (slot_of ix) [
  | none ↦ none
  | some s ↦ if (get c s).b_valid then some (get c s).sock else none
]

-- `client_manager_reg`: `created` is whether `thread_create` starts the receive loop.
unfoldable pub client_manager_reg : Bool → Clients → ℤ → Option Bytes → ℤ → Bool × Clients
client_manager_reg created c sock ip_addr ip_port =
    let (slot, c') = internal_client_manager_new c sock ip_addr ip_port in
    elim slot [ none ↦ (false, c') | some s ↦ (created, c') ]

-- The body of `thread_func_accept_client` (src/network/tcp_socket.c) for an accepted `client_fd`:
-- it closes the descriptor itself if the registration fails.
unfoldable pub accept_client : Bool → Clients → ℤ → Bytes → ℤ → Clients
accept_client created c client_fd ip_addr port =
    let (registered, c') = client_manager_reg created c client_fd (some ip_addr) port in
    if registered then c' else record c' { closed = client_fd ∷ c'.closed }

abbrev init_slot : ℤ → ConnectInfo → ConnectInfo
init_slot k conn = record conn { ix = k; b_valid = false; b_login = false; sock = negsuc 0 }

unfoldable pub client_manager_init : Clients → Clients
client_manager_init c = record c {
  slot0 = init_slot (pos 0) c.slot0;
  slot1 = init_slot (pos 1) c.slot1;
}

abbrev pub recv_data_buffer : ℕ
recv_data_buffer = 4096

-- The locals of `thread_func_client_pad_or_0`: `main_buf`, of twice `recv_data_buffer` bytes, and
-- `recvLen`, how many of them are waiting.
pub record Receiver : Type 0 where
  pub main_buf : Bytes
  pub recv_len : ℤ

abbrev pub sub_ℕ : ℕ → ℕ → ℤ
sub_ℕ a b = if leb b a then pos (a - b) else negsuc (b - a - 1)

-- `if(recvLen > 0) memmove(main_buf, main_buf+consume, recvLen)`
pub keep_rest : ℕ → ℤ → Bytes → Run Bytes
keep_rest consume (negsuc n) main_buf = ok main_buf
keep_rest consume (pos zero) main_buf = ok main_buf
keep_rest consume (pos (suc n)) main_buf = do
  rest ← load (suc n) (drop consume main_buf)
  store 0 rest main_buf

-- One round of the loop for a `tcp_recv` that returned `chunk`, a positive number of bytes. `deliver`
-- is `output_client_recv_data` on the view of the waiting bytes: it changes the rest of the program's
-- state, `W`, and returns how many bytes it used.
module _ {W : Type 0} (deliver : Bytes → W → Run (ℕ × W)) where
  pub receive_at : ℤ → Bytes → Receiver → W → Run (Receiver × W)
  receive_at (negsuc n) chunk r w = fault
  receive_at (pos n) chunk r w = do
    main_buf ← store n chunk r.main_buf
    view ← load (n + length chunk) main_buf
    (consume, w') ← deliver view w
    let left = sub_ℕ (n + length chunk) consume
    main_buf' ← keep_rest consume left main_buf
    ok (record { main_buf = main_buf'; recv_len = left }, w')

  pub receive : Bytes → Receiver → W → Run (Receiver × W)
  receive chunk r w = receive_at r.recv_len chunk r w

-- `output_client_recv_data`: without a callback nothing is used.
unfoldable pub output_client_recv_data :
    {W : Type 0} → Option (ℤ → Bytes → Bool → W → Run (ℕ × W)) → Bytes → ℤ → Bool → W → Run (ℕ × W)
output_client_recv_data none buffer connect_no b_login w = ok (0, w)
output_client_recv_data (some callback) buffer connect_no b_login w =
    callback connect_no buffer b_login w
