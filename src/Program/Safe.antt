-- ===== src/Program/Safe.antt =====
-- Invariants of the whole program, in any order of connections, bytes and datagrams.
use ccc_upgrade.Base.{
  ◌≡◌, refl, sym, subst, inl, inr, Bool, true, false, Option, none, some, ◌==◌, Option-cases,
  length, take,
}
use ccc_upgrade.Base.Bytes.{Bytes, Run, ok}
use ccc_upgrade.Base.Int.{ℤ}
use ccc_upgrade.Base.Holds.{returns, Holds-ok, Holds-pure, Holds-if}
use ccc_upgrade.Packet.{Packet}
use ccc_upgrade.Pool.{Heap, Pool, Memory, packet_pool_get_buffer, packet_pool_get_pdu_buf}
use ccc_upgrade.Pool.Keeps.{
  IsSound, IsFresh, packet_pool_set-IsSound, packet_pool_get_buffer-IsSound,
  packet_pool_get_pdu_buf-IsSound,
}
use ccc_upgrade.Client.{get, send_socket}
use ccc_upgrade.Files.{file_upload_single_finish}
use ccc_upgrade.Adapter.Keeps.{KeepsState, Leaves, Keeps, KeepsFiles}
use ccc_upgrade.Adapter.Stream.Keeps.{Allowed, process_data-Leaves, process_udp_data-Keeps}
use ccc_upgrade.Program.{
  Machine, World, in_pool, set_packet, client_send, services, callback_by_network_manager,
  callback_by_udp_server, udp_round, udp_server_output_client_data,
}
use ccc_upgrade.Program.Steps.{
  Actor, Step, accept, received, closing, datagram, elsewhere, Reach, start, later,
}
use ccc_upgrade.Client.Table

-- The table of connections is valid, and the pool is a ring that is not too long.
pub record IsSafe {X : Type 0} (w : World X) : Type 0 where
  pub table : Table.IsValid w.clients
  pub pool_sound : IsSound w.pool

-- The system's `malloc` gives no node that is in use.
abbrev pub MallocsNew : {X : Type 0} → Machine X → Type 0
MallocsNew {X} m = (heap : Heap) (x : X) → IsFresh (m.fresh_node heap x).0 heap

-- Sending changes nothing but the system.
abbrev SameParts : {X : Type 0} → World X → World X → Type 0
SameParts w w' = (w'.clients ≡ w.clients) × (w'.pool ≡ w.pool) × (w'.upload ≡ w.upload)

client_send-SameParts :
    {X : Type 0} (m : Machine X) (handle : ℤ) (data_ : Bytes) (w : World X)
    → SameParts w (client_send m handle data_ w).1
client_send-SameParts m handle data_ w = elim (Option-cases (send_socket w.clients handle)) [
  | inl e ↦ rw (client_send, e) (refl, refl, refl)
  | inr (sock, e) ↦ rw (client_send, e) (refl, refl, refl)
]

same-IsSafe : {X : Type 0} {w w' : World X} → IsSafe w → SameParts w w' → IsSafe w'
same-IsSafe h same = record {
  table = subst Table.IsValid (sym same.0) h.table;
  pool_sound = subst IsSound (sym same.1) h.pool_sound;
}

-- A call of the pool that is defined and leaves a sound pool.
in_pool-IsSafe :
    {X : Type 0} (m : Machine X) (f : Memory → Pool → Run (Option Packet × Pool)) (w : World X)
    → ((memory : Memory)
        → (result : Option Packet) × (pool' : Pool) × (f memory w.pool ≡ ok (result, pool'))
          × IsSound pool')
    → IsSafe w
    → Leaves IsSafe (in_pool m f w)
in_pool-IsSafe m f w sound h =
    let (result, pool', e, v) = sound (m.memory w.outside).0 in
    rw e (returns (record { table = h.table; pool_sound = v }))

module _ {X : Type 0} (m : Machine X) (fresh : MallocsNew m) where
  set_packet-IsSafe : (p : Packet) (w : World X) → IsSafe w → Leaves IsSafe (set_packet m p w)
  unfolding set_packet
  set_packet-IsSafe p w h =
      let (done, pool', e, v) =
        packet_pool_set-IsSound (m.fresh_node w.pool.heap w.outside).0 p h.pool_sound
          (fresh w.pool.heap w.outside) in
      rw e (returns (record { table = h.table; pool_sound = v }))

  pub services-Keeps : Keeps IsSafe (services m)
  services-Keeps = record {
    get_buffer = λ size w h.
        in_pool-IsSafe m (λ memory pool. packet_pool_get_buffer memory pool size) w
          (λ memory. packet_pool_get_buffer-IsSound memory size h.pool_sound) h;
    get_pdu_buf = λ size w h.
        in_pool-IsSafe m (λ memory pool. packet_pool_get_pdu_buf memory pool size) w
          (λ memory. packet_pool_get_pdu_buf-IsSound memory size h.pool_sound) h;
    set_packet = set_packet-IsSafe;
    client_send =
        λ handle data_ w h. returns (same-IsSafe h (client_send-SameParts m handle data_ w));
    set_login = λ handle w h. returns (record {
      table = Table.Step-IsValid (Table.login w.clients handle) h.table;
      pool_sound = h.pool_sound;
    });
    udp_send = λ handle data_ w h. returns (same-IsSafe h (refl, refl, refl));
    malloc_ = λ size w h. same-IsSafe h (refl, refl, refl);
    getifaddrs_ = λ w h. same-IsSafe h (refl, refl, refl);
    gethostname_ = λ w h. same-IsSafe h (refl, refl, refl);
  }

  pub services-KeepsFiles : KeepsFiles IsSafe (services m)
  services-KeepsFiles = record {
    open_file = λ dir title w h. returns (record { table = h.table; pool_sound = h.pool_sound });
    write_file = λ offset data_ w h. returns (same-IsSafe h (refl, refl, refl));
    finish_file = λ md5sum w h.
        Holds-pure (file_upload_single_finish m.os md5sum w.upload w.outside) _
          λ r. returns (record { table = h.table; pool_sound = h.pool_sound });
    execute = λ dir title w h. returns (same-IsSafe h (refl, refl, refl));
    reboot = λ w h. returns (same-IsSafe h (refl, refl, refl));
  }

  allowed : (b_login : Bool) → Allowed IsSafe (services m) b_login
  allowed true = services-KeepsFiles
  allowed false = tt

  udp_round-IsSafe :
      (dir : Option Bytes) (received_ : Option (ℤ × Bytes)) (w : World X)
      → IsSafe w
      → KeepsState IsSafe (udp_round m dir true received_ w)
  unfolding udp_round udp_server_output_client_data callback_by_udp_server
  udp_round-IsSafe dir none w h = returns h
  udp_round-IsSafe dir (some (remote_addr, buffer)) w h =
      Holds-if (length buffer == 0) _ _ (returns h) (
        process_udp_data-Keeps IsSafe (services m) services-Keeps dir remote_addr (take 1024 buffer)
          w h)

  Step-IsSafe :
      (dir : Option Bytes) {a : Actor} {w w' : World X} → Step m dir a w w' → IsSafe w → IsSafe w'
  unfolding callback_by_network_manager callback_by_udp_server
  Step-IsSafe dir (accept w created sock ip_addr port) h = record {
    table = Table.Step-IsValid (Table.accept w.clients created sock ip_addr port) h.table;
    pool_sound = h.pool_sound;
  }
  Step-IsSafe dir (received s buffer {w} {w'} e) h =
      Holds-ok
        (process_data-Leaves IsSafe (services m) services-Keeps dir (get w.clients s).b_login
          (allowed (get w.clients s).b_login) (get w.clients s).ix buffer w h)
        e
  Step-IsSafe dir (closing s w) h = record {
    table = Table.Step-IsValid (Table.closing w.clients (get w.clients s).ix) h.table;
    pool_sound = h.pool_sound;
  }
  Step-IsSafe dir (datagram received_ {w} e) h = Holds-ok (udp_round-IsSafe dir received_ w h) e
  Step-IsSafe dir (elsewhere w x) h = same-IsSafe h (refl, refl, refl)

  -- In every world that the program reaches from a start with a pool that is a ring of at most
  -- `pkt_count_max` packets, in any order of connections, bytes, datagrams and ends of connections,
  -- the pool is such a ring again, a logged-in slot is in use, and at most one slot is logged in. It
  -- is assumed that `malloc` gives no node that is in use.
  pub Reach-IsSafe :
      (dir : Option Bytes) {w w' : World X} → IsSound w.pool → Reach m dir w w' → IsSafe w'
  Reach-IsSafe dir {w} h start = record {
    table = Table.client_manager_init-IsValid w.clients;
    pool_sound = h;
  }
  Reach-IsSafe dir h (later a r st) = Step-IsSafe dir st (Reach-IsSafe dir h r)
