-- ===== src/Net/Setup.antt =====
-- src/network/tcp_socket.c and udp_socket.c: the set-up of the sockets, on the calls of the system.
use ccc_upgrade.Base.{◌%◌, ◌^◌, Bool, true, false, not, ◌==◌, if◌then◌else◌}
use ccc_upgrade.Base.Int.{ℤ, pos, negsuc, pattern32}
use ccc_upgrade.Client.{is_positive}

-- The calls of the system, each with its result. `bind` is to all addresses of the host.
pub record Sockets (X : Type 0) : Type 0 where
  pub socket_stream : X → ℤ × X
  pub socket_dgram : X → ℤ × X
  pub setsockopt : ℤ → X → ℤ × X
  pub bind : ℤ → ℤ → X → ℤ × X
  pub listen : ℤ → ℤ → X → ℤ × X
  pub close : ℤ → X → ℤ × X
  pub malloc_params : X → Bool × X
  pub thread_create : X → Bool × X

abbrev pub is_zero : ℤ → Bool
is_zero (pos n) = n == 0
is_zero (negsuc n) = false

abbrev pub is_negative : ℤ → Bool
is_negative (pos n) = false
is_negative (negsuc n) = true

-- `-1`
abbrev pub is_error : ℤ → Bool
is_error (pos n) = false
is_error (negsuc n) = n == 0

-- `(uint16_t) port`, for a port that is not negative.
abbrev pub port16 : ℤ → ℤ
port16 port = pos ((pattern32 port) % 2 ^ 16)

module _ {X : Type 0} (sys : Sockets X) where
  unfoldable pub tp_server_bind : ℤ → ℤ → ℤ → X → Bool × X
  tp_server_bind sock port maximum x =
      if not (is_positive maximum)
      then (false, x)
      else (let (reused, x) = sys.setsockopt sock x in
          if not (is_zero reused)
          then (false, x)
          else (let (bound, x) = sys.bind sock (port16 port) x in
              if not (is_zero bound)
              then (false, x)
              else (let (listening, x) = sys.listen sock maximum x in (is_zero listening, x))))

  -- Whether the accept loop was started.
  unfoldable pub tp_server_accept : X → Bool × X
  tp_server_accept x =
      let (got, x) = sys.malloc_params x in if got then sys.thread_create x else (false, x)

  unfoldable pub udp_server_bind : ℤ → ℤ → X → Bool × X
  udp_server_bind sock port x =
      let (bound, x) = sys.bind sock (port16 port) x in (not (is_error bound), x)

  pub udp_close : ℤ → X → Bool × X
  udp_close sock x =
      if not (is_positive sock)
      then (false, x)
      else (let (closed, x) = sys.close sock x in (is_zero closed, x))
