-- ===== src/Start/Ready.antt =====
-- What holds when the program comes to serve datagrams.
use ccc_upgrade.Base.{
  ◌∙◌, ◌+◌, ◌≡◌, refl, ap, subst, Bool, true, false, not, some, List, ◌++◌, arith, if◌then◌else◌,
  length, set,
}
use ccc_upgrade.Base.Bytes.{ok_inv, Bytes, codes, Run, ok, >>=-eq-ok}
use ccc_upgrade.Base.Int.{ℤ, pos}
use ccc_upgrade.Util.Text.{with_slash}
use ccc_upgrade.Program.Events.{Event, happen_all, HasTable, happen_all-HasTable}
use ccc_upgrade.Configure.{load_configure, load_configure-path}
use ccc_upgrade.Net.Setup.{is_negative, tp_server_bind, tp_server_accept, udp_server_bind}
use ccc_upgrade.Start.{
  World, Meanwhile, during, System, Boot, Stage, ◌&>◌, calls, protocol_adapter_init, open_tcp,
  start_accepting, init_clients, tcp_server_start, open_udp, udp_server_start, configured,
}
use ccc_upgrade.Client.Table

-- A stage that succeeds leads from `P` to `Q`.
pub record Gives {X : Type 0} (P : Boot X → Type 0) (f : Stage X) (Q : Boot X → Type 0)
    : Type 0 where
  pub at : (b : Boot X) {c : Boot X} → P b → f b ≡ ok (true, c) → Q c

module _ {X : Type 0} {P Q R : Boot X → Type 0} (f g : Stage X) (first : Gives P f Q)
    (second : Gives Q g R) where
  pub Gives-seq : Gives P (f &> g) R
  Gives-seq = record { at = λ b p e. let (r, done, e') = >>=-eq-ok (f b) _ e in both b p r done e' }
    where
      both :
          (b : Boot X) {c : Boot X}
          → P b
          → (r : Bool × Boot X) → f b ≡ ok r
          → (if r.0 then g r.1 else ok (false, r.1)) ≡ ok (true, c)
          → R c
      both b p (true, b') done e = second.at b' (first.at b p done) e
      both b p (false, b') done e = cc

-- The last step of a stage.
pub leads :
    {X : Type 0} (Q : Boot X → Type 0) (done : Bool) (b : Boot X) {c : Boot X}
    → (done ≡ true → Q b)
    → ◌≡◌ {A = Run (Bool × Boot X)} (ok (done, b)) (ok (true, c))
    → Q c
leads Q true b q e = subst (λ r. Q r.1) (ok_inv e) (q refl)
leads Q false b q e = cc

-- The directory for uploads.
pub record IsUploadDir (path : Bytes) : Type 0 where
  pub cwd : Bytes
  pub under : path ≡ with_slash cwd ++ codes "upgrade"

abbrev pub HasWorkdir : {X : Type 0} → Boot X → Type 0
HasWorkdir b = (path : Bytes) × (b.workdir_upgrade ≡ some path) × IsUploadDir path

-- The adapter has its directory.
abbrev pub HasTempDir : {X : Type 0} → Boot X → Type 0
HasTempDir b = (path : Bytes) × (b.upgrade_temp_dir ≡ some path) × IsUploadDir path

abbrev pub HasSocket : {X : Type 0} → Boot X → Type 0
HasSocket b = HasTempDir b × (is_negative b.sock_tcp_server ≡ false)

abbrev pub IsAccepting : {X : Type 0} → Boot X → Type 0
IsAccepting b = HasSocket b × (b.accepting ≡ true)

-- The TCP service is up, with a valid table.
abbrev pub HasTcp : {X : Type 0} → Boot X → Type 0
HasTcp b = IsAccepting b × (b.network_callback ≡ true) × Table.IsValid b.world.clients

abbrev pub HasUdpSocket : {X : Type 0} → Boot X → Type 0
HasUdpSocket b = HasTcp b × (is_negative b.world.sock_udp_server ≡ false)

-- The program has all that it needs.
pub record IsReady {X : Type 0} (b : Boot X) : Type 0 where
  pub dir : Bytes
  pub temp_dir : b.upgrade_temp_dir ≡ some dir
  pub upload_dir : IsUploadDir dir
  pub tcp_socket : is_negative b.sock_tcp_server ≡ false
  pub accept_loop : b.accepting ≡ true
  pub tcp_callback : b.network_callback ≡ true
  pub table : Table.IsValid b.world.clients
  pub udp_socket : is_negative b.world.sock_udp_server ≡ false
  pub udp_callback : b.udp_server_callback ≡ true

module _ {X : Type 0} (sys : System X) where
  pub configured-Gives : Gives (λ b. Unit {0}) (configured sys) HasWorkdir
  unfolding configured
  configured-Gives = record {
    at = λ b p e.
        leads HasWorkdir (load_configure sys.machine.os sys.getcwd b.world.outside).0 _
          (λ done.
            let (cwd, _, under) = load_configure-path sys.machine.os sys.getcwd b.world.outside (
              ap (λ (t : Bool). (t, (load_configure sys.machine.os sys.getcwd b.world.outside).1))
                done) in
            (with_slash cwd ++ codes "upgrade", under, record { cwd = cwd; under = refl }))
          e;
  }

  pub adapter-Gives : Gives HasWorkdir (protocol_adapter_init sys) HasTempDir
  unfolding protocol_adapter_init
  adapter-Gives = record {
    at = λ b (path, set, is_dir) e.
        leads HasTempDir (sys.machine.os.malloc (length path + 1) b.world.outside).0 _
          (λ got. (path, rw got refl, is_dir)) (rw (protocol_adapter_init, set) at e);
  }

  pub open_tcp-Gives : Gives HasTempDir (open_tcp sys) HasSocket
  unfolding open_tcp
  open_tcp-Gives = record {
    at = λ b p e.
        leads HasSocket (not (is_negative (sys.sockets.socket_stream b.world.outside).0)) _
          (λ opened. (p, ground arith)) e;
  }

  pub IsAccepting-Gives :
      (early : List Event) → Gives HasSocket (start_accepting sys early) IsAccepting
  unfolding start_accepting
  IsAccepting-Gives early = record {
    at = λ b p e.
        leads IsAccepting (tp_server_accept sys.sockets b.world.outside).0 _ (λ done. (p, done)) e;
  }

  pub init-Gives : Gives IsAccepting (init_clients sys) HasTcp
  unfolding init_clients
  init-Gives = record {
    at = λ b p e.
        leads HasTcp true _ (λ _. (p, refl, Table.client_manager_init-IsValid b.world.clients)) e;
  }

  pub open_udp-Gives : Gives HasTcp (open_udp sys) HasUdpSocket
  unfolding open_udp
  open_udp-Gives = record {
    at = λ b p e.
        leads HasUdpSocket (not (is_negative (sys.sockets.socket_dgram b.world.outside).0)) _
          (λ opened. (p, ground arith)) e;
  }

  pub tcp-Gives :
      (port : ℤ) (early : List Event) → Gives HasTempDir (tcp_server_start sys port early) HasTcp
  unfolding tcp_server_start
  tcp-Gives port early =
      Gives-seq _ _
        (Gives-seq _ _ (Gives-seq _ _ open_tcp-Gives bind_tcp) (IsAccepting-Gives early)) init-Gives
    where
      bind_tcp :
          Gives HasSocket
            (λ b. calls (tp_server_bind sys.sockets b.sock_tcp_server port (pos 256)) b)
            HasSocket
      bind_tcp = record {
        at = λ b p e.
            leads HasSocket
              (tp_server_bind sys.sockets b.sock_tcp_server port (pos 256) b.world.outside).0 _
              (λ _. p) e;
      }

  -- What the other threads do keeps whatever the table and the socket for datagrams allow.
  during-Gives :
      (P : Boot X → Type 0)
      → ((b : Boot X) → P b → Table.IsValid b.world.clients)
      → ((b : Boot X) (w : World X)
          → P b
          → HasTable b.world.sock_udp_server w
          → P (record b { world = w }))
      → (events : List Event) → Gives P (during sys events) P
  unfolding during
  during-Gives P table moved events = record {
    at = λ b p e.
        let (w, got, rest) =
          >>=-eq-ok (happen_all sys.machine b.upgrade_temp_dir events b.world) _ e in
        let kept =
          happen_all-HasTable sys.machine b.upgrade_temp_dir b.world.sock_udp_server events got
            (record { table = table b p; socket = refl }) in
        leads P true (record b { world = w }) (λ _. moved b w p kept) rest;
  }

  during-HasTcp : (events : List Event) → Gives HasTcp (during sys events) HasTcp
  during-HasTcp =
      during-Gives HasTcp (λ b p. p.2) λ b w (p, callback, _) kept. (p, callback, kept.table)

  during-HasUdpSocket : (events : List Event) → Gives HasUdpSocket (during sys events) HasUdpSocket
  during-HasUdpSocket =
      during-Gives HasUdpSocket (λ b p. p.0.2)
        λ b w ((p, callback, _), udp) kept.
          ((p, callback, kept.table), ap is_negative kept.socket ∙ udp)

  during-IsReady : (events : List Event) → Gives IsReady (during sys events) IsReady
  during-IsReady =
      during-Gives IsReady (λ b p. p.table)
        λ b w p kept. record {
          dir = p.dir;
          temp_dir = p.temp_dir;
          upload_dir = p.upload_dir;
          tcp_socket = p.tcp_socket;
          accept_loop = p.accept_loop;
          tcp_callback = p.tcp_callback;
          table = kept.table;
          udp_socket = ap is_negative kept.socket ∙ p.udp_socket;
          udp_callback = p.udp_callback;
        }

  pub udp-Gives :
      (port : ℤ) (meanwhile : Meanwhile)
      → Gives HasTcp (udp_server_start sys port true meanwhile) IsReady
  unfolding udp_server_start
  udp-Gives port meanwhile =
      Gives-seq _ _
        (Gives-seq _ _
          (Gives-seq _ _
            (Gives-seq _ _
              (Gives-seq _ _ (Gives-seq _ _ given (during-HasTcp meanwhile.before_socket))
                open_udp-Gives)
              (during-HasUdpSocket meanwhile.before_bind))
            bind_udp)
          ready)
        (during-IsReady meanwhile.before_serving)
    where
      given : Gives {X = X} HasTcp (λ b. ok (true, b)) HasTcp
      given = record { at = λ b p e. leads HasTcp true b (λ _. p) e }

      bind_udp :
          Gives HasUdpSocket
            (λ b. calls (udp_server_bind sys.sockets b.world.sock_udp_server port) b)
            HasUdpSocket
      bind_udp = record {
        at = λ b p e.
            leads HasUdpSocket
              (udp_server_bind sys.sockets b.world.sock_udp_server port b.world.outside).0 _
              (λ _. p) e;
      }

      ready :
          Gives {X = X} HasUdpSocket
            (λ b. ok (true, record b { udp_server_callback = true }))
            IsReady
      ready = record {
        at = λ b (((((path, set, dir), opened), accepting), callback, table), udp) e.
            leads IsReady true (record b { udp_server_callback = true })
              (λ _. record {
                dir = path;
                temp_dir = set;
                upload_dir = dir;
                tcp_socket = opened;
                accept_loop = accepting;
                tcp_callback = callback;
                table = table;
                udp_socket = udp;
                udp_callback = refl;
              })
              e;
      }
