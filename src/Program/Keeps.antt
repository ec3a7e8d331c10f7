-- ===== src/Program/Keeps.antt =====
-- What does not look at the pool and the system is kept by all that is called for anybody, but for a login.
use ccc_upgrade.Base.{inl, inr, Bool, Option, some, Option-cases}
use ccc_upgrade.Base.Bytes.{Bytes, Run}
use ccc_upgrade.Base.Int.{ℤ}
use ccc_upgrade.Base.Holds.{returns, Holds-pure}
use ccc_upgrade.Packet.{Packet}
use ccc_upgrade.Pool.{
  Pool, Memory, packet_pool_get_buffer, packet_pool_get_pdu_buf, packet_pool_set,
}
use ccc_upgrade.Client.{send_socket}
use ccc_upgrade.Adapter.Keeps.{Leaves, Keeps}
use ccc_upgrade.Adapter.Stream.Password.{with_login}
use ccc_upgrade.Program.{Machine, World, in_pool, set_packet, client_send, services}

module _ {X : Type 0} (m : Machine X) (P : World X → Type 0)
    (moved : (w : World X) (pool : Pool) (x : X)
      → P w
      → P (record w { pool = pool; outside = x })) where
  in_pool-Leaves :
      (f : Memory → Pool → Run (Option Packet × Pool)) (w : World X)
      → P w
      → Leaves P (in_pool m f w)
  in_pool-Leaves f w h =
      Holds-pure (f (m.memory w.outside).0 w.pool) _ λ r. returns (moved w r.1 _ h)

  set_packet-Leaves : (p : Packet) (w : World X) → P w → Leaves P (set_packet m p w)
  unfolding set_packet
  set_packet-Leaves p w h =
      Holds-pure (packet_pool_set (m.fresh_node w.pool.heap w.outside).0 w.pool (some p)) _
        λ r. returns (moved w r.1 _ h)

  client_send-kept :
      (handle : ℤ) (data_ : Bytes) (w : World X) → P w → P (client_send m handle data_ w).1
  client_send-kept handle data_ w h = elim (Option-cases (send_socket w.clients handle)) [
    | inl e ↦ rw (client_send, e) h
    | inr (sock, e) ↦ rw (client_send, e) (moved w w.pool _ h)
  ]

  pub services-Keeps :
      (login : ℤ → World X → Run (Bool × World X))
      → ((handle : ℤ) (w : World X) → P w → Leaves P (login handle w))
      → Keeps P (with_login login (services m))
  services-Keeps login kept = record {
    get_buffer =
        λ size w h. in_pool-Leaves (λ memory pool. packet_pool_get_buffer memory pool size) w h;
    get_pdu_buf =
        λ size w h. in_pool-Leaves (λ memory pool. packet_pool_get_pdu_buf memory pool size) w h;
    set_packet = set_packet-Leaves;
    client_send = λ handle data_ w h. returns (client_send-kept handle data_ w h);
    set_login = kept;
    udp_send = λ handle data_ w h. returns (moved w w.pool _ h);
    malloc_ = λ size w h. moved w w.pool _ h;
    getifaddrs_ = λ w h. moved w w.pool _ h;
    gethostname_ = λ w h. moved w w.pool _ h;
  }
