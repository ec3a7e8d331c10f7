-- ===== src/Adapter/Keeps.antt =====
-- What every call that the adapter makes for anybody keeps, the handling of a login and of a search for
-- the device keeps.
pub mod Files
use ccc_upgrade.Base.{
  ℕ, ◌+◌, ◌≡◌, refl, inl, inr, Bool, false, Option, none, some, List, [], ◌∷◌, leb, if◌then◌else◌,
  Option-cases, length, drop, replicate,
}
use ccc_upgrade.Base.Bytes.{Bytes, Run, ok, ◌>>=◌, load}
use ccc_upgrade.Base.Int.{ℤ, pos, pos_part, ltb_ℤ}
use ccc_upgrade.Base.Holds.{Holds, returns, undefined, Holds-bind, Holds-pure, Holds-if}
use ccc_upgrade.Protocol.{Pdu, create_protocol_packet}
use ccc_upgrade.Packet.{Packet}
use ccc_upgrade.Configure.{check_login}
use ccc_upgrade.Services.{Interface, Address, no_address, other_family, inet, Services}
use ccc_upgrade.Answers.{
  append_data, send_reply, send_reply_to_client, send_reply_to_udp, send_one_ip, send_interface,
  send_interfaces, send_ip,
}
use ccc_upgrade.Adapter.{status, copy_string, try_login, process_protocol_client_login}

module _ {W : Type 0} (P : W → Type 0) where
  -- The step leaves a state with `P`, if it leaves one.
  abbrev pub Leaves : {A : Type 0} → Run (A × W) → Type 0
  Leaves = Holds (λ r. P r.1)

  abbrev pub KeepsState : Run W → Type 0
  KeepsState = Holds P

  -- What is called for anybody keeps `P`.
  pub record Keeps (s : Services W) : Type 0 where
    pub get_buffer : (size : ℤ) (w : W) → P w → Leaves (s.packet_pool_get_buffer size w)
    pub get_pdu_buf : (size : ℤ) (w : W) → P w → Leaves (s.packet_pool_get_pdu_buf size w)
    pub set_packet : (p : Packet) (w : W) → P w → Leaves (s.packet_pool_set p w)
    pub client_send :
        (handle : ℤ) (data_ : Bytes) (w : W)
        → P w
        → Leaves (s.network_manager_client_send handle data_ w)
    pub set_login :
        (handle : ℤ) (w : W) → P w → Leaves (s.network_manager_client_set_login handle w)
    pub udp_send :
        (handle : ℤ) (data_ : Bytes) (w : W) → P w → Leaves (s.udp_server_send handle data_ w)
    pub malloc_ : (size : ℕ) (w : W) → P w → P (s.malloc size w).1
    pub getifaddrs_ : (w : W) → P w → P (s.getifaddrs w).1
    pub gethostname_ : (w : W) → P w → P (s.gethostname w).1

  -- So does what is called for a client that is logged in.
  pub record KeepsFiles (s : Services W) : Type 0 where
    pub open_file :
        (dir : Option Bytes) (title : Bytes) (w : W) → P w → Leaves (s.file_upload_open dir title w)
    pub write_file :
        (offset : ℤ) (data_ : Bytes) (w : W) → P w → Leaves (s.file_upload_write offset data_ w)
    pub finish_file : (md5sum : Bytes) (w : W) → P w → Leaves (s.file_upload_single_finish md5sum w)
    pub execute :
        (dir : Option Bytes) (title : Bytes) (w : W)
        → P w
        → Leaves (s.file_execute_script dir title w)
    pub reboot : (w : W) → P w → KeepsState (s.reboot_device w)

module _ {W : Type 0} (P : W → Type 0) (s : Services W) (kept : Keeps P s) where
  pub Leaves-bind :
      {A B : Type 0} (r : Run (A × W)) (k : A × W → Run (B × W))
      → Leaves P r
      → ((x : A × W) → P x.1 → Leaves P (k x))
      → Leaves P (r >>= k)
  Leaves-bind r k = Holds-bind (λ x. P x.1) r k

  -- A call of the pool that ends a run.
  pub give_back-Leaves :
      {A : Type 0} (p : Packet) (a : A) (w : W)
      → P w
      → Leaves P (do (_, w) ← s.packet_pool_set p w; ok (a, w))
  give_back-Leaves p a w h =
      Leaves-bind (s.packet_pool_set p w) _ (kept.set_packet p w h) λ x h. returns h

  send_reply-Leaves :
      (send : Bytes → W → Run (Bool × W)) (cmd cmd_ex : ℕ) (data_ : Bytes) (w : W)
      → ((view : Bytes) (w : W) → P w → Leaves P (send view w))
      → P w
      → Leaves P (send_reply s send cmd cmd_ex data_ w)
  unfolding send_reply
  send_reply-Leaves send cmd cmd_ex data_ w sends h =
      Leaves-bind (s.packet_pool_get_buffer (pos 4096) w) _ (kept.get_buffer (pos 4096) w h)
        λ (packet, w) h. elim (Option-cases packet) [
          | inl e ↦ rw e (returns h)
          | inr (p, e) ↦ rw e (
              Holds-pure
                (create_protocol_packet cmd cmd_ex (some data_) (length data_) p.buffer 4096) _
                λ (size, buffer). elim (Option-cases buffer) [
                  | inl e ↦ rw e (give_back-Leaves _ false w h)
                  | inr (out, e) ↦ rw e (
                      Leaves-bind
                        (if leb size 0
                          then ok (false, w)
                          else (load size out >>= λ view. send view w))
                        _
                        (Holds-if (leb size 0) _ _ (returns h)
                          (Holds-pure (load size out) _ λ view. sends view w h))
                        λ (result, w) h. give_back-Leaves _ result w h)
                ])
        ]

  -- A copied string, where it is copied.
  pub copy_string-Leaves :
      (skip len : ℕ) (data_ : Option Bytes) (w : W)
      → P w
      → Leaves P (copy_string s skip len data_ w)
  unfolding copy_string
  copy_string-Leaves skip len none w h = Holds-if (s.malloc (len + 1) w).0 _ _ undefined undefined
  copy_string-Leaves skip len (some block) w h =
      Holds-if (s.malloc (len + 1) w).0 _ _
        (Holds-pure (load len (drop skip block)) _ λ bytes. returns (kept.malloc_ (len + 1) w h))
        undefined

  pub reply-Leaves :
      (handle : ℤ) (cmd cmd_ex : ℕ) (data_ : Bytes) (w : W)
      → P w
      → Leaves P (send_reply_to_client s handle cmd cmd_ex data_ w)
  reply-Leaves handle cmd cmd_ex data_ w h =
      send_reply-Leaves (s.network_manager_client_send handle) cmd cmd_ex data_ w
        (kept.client_send handle) h

  send_one_ip-Keeps :
      (handle : ℤ) (hostname ipaddr : Bytes) (w : W)
      → P w
      → KeepsState P (send_one_ip s handle hostname ipaddr w)
  unfolding send_one_ip
  send_one_ip-Keeps handle hostname ipaddr w h =
      Holds-pure (append_data 0 ipaddr (replicate 2048 0)) _ λ (len1, info).
        Holds-pure (append_data len1 hostname info) _ λ (len2, info).
          Holds-pure (load (len1 + len2) info) _ λ view.
            Holds-bind (λ x. P x.1) (send_reply_to_udp s handle 0xE0 1 view w) _
              (send_reply-Leaves (s.udp_server_send handle) 0xE0 1 view w (kept.udp_send handle) h)
              λ x h. returns h

  send_interface-Keeps :
      (handle : ℤ) (hostname : Bytes) (ifa : Interface) (w : W)
      → P w
      → KeepsState P (send_interface s handle hostname ifa w)
  unfolding send_interface
  send_interface-Keeps handle hostname ifa w h = at_address ifa.ifa_addr refl
    where
      at_address :
          (a : Address) → ifa.ifa_addr ≡ a → KeepsState P (send_interface s handle hostname ifa w)
      at_address no_address e = rw (send_interface, e) undefined
      at_address other_family e = rw (send_interface, e) (returns h)
      at_address (inet ipaddr) e =
          rw (send_interface, e)
            (Holds-if ifa.loopback _ _ (returns h)
              (Holds-if ifa.running _ _ (send_one_ip-Keeps handle hostname ipaddr w h) (returns h)))

  send_interfaces-Keeps :
      (handle : ℤ) (hostname : Bytes) (list : List Interface) (w : W)
      → P w
      → KeepsState P (send_interfaces s handle hostname list w)
  unfolding send_interfaces
  send_interfaces-Keeps handle hostname [] w h = returns h
  send_interfaces-Keeps handle hostname (ifa ∷ list) w h =
      Holds-bind P (send_interface s handle hostname ifa w) _
        (send_interface-Keeps handle hostname ifa w h) (send_interfaces-Keeps handle hostname list)

  pub send_ip-Leaves : (handle : ℤ) (w : W) → P w → Leaves P (send_ip s handle w)
  unfolding send_ip
  send_ip-Leaves handle w h =
      let h1 = kept.getifaddrs_ w h in
      let h2 = kept.gethostname_ _ h1 in
      elim (Option-cases (s.getifaddrs w).0) [
        | inl e ↦ rw (send_ip, e) (returns h1)
        | inr (list, e) ↦ elim (Option-cases (s.gethostname (s.getifaddrs w).1).0) [
          | inl e' ↦ rw (send_ip, e, e') (returns h2)
          | inr (hostname, e') ↦
              rw (send_ip, e, e')
                (Holds-bind P _ _ (send_interfaces-Keeps handle hostname list _ h2)
                  λ w h. returns h)
        ]
      ]

  try_login-Leaves : (handle : ℤ) (pdu : Pdu) (w : W) → P w → Leaves P (try_login s handle pdu w)
  try_login-Leaves handle pdu w h =
      Holds-if (ltb_ℤ (pos 1) pdu.data_len) _ _
        (Leaves-bind (copy_string s 0 (pos_part pdu.data_len) pdu.block w) _
          (copy_string-Leaves 0 (pos_part pdu.data_len) pdu.block w h)
          λ (password, w) h.
            Holds-if (check_login password) _ _
              (Leaves-bind (s.network_manager_client_set_login handle w) _
                (kept.set_login handle w h) λ x h. returns h)
              (returns h))
        (returns h)

  pub client_login-Leaves :
      (handle : ℤ) (pdu : Pdu) (w : W)
      → P w
      → Leaves P (process_protocol_client_login s handle pdu w)
  unfolding process_protocol_client_login
  client_login-Leaves handle pdu w h =
      Leaves-bind (try_login s handle pdu w) _ (try_login-Leaves handle pdu w h)
        λ (done, w) h. reply-Leaves handle 0xE1 1 (status done ∷ []) w h
