-- ===== src/Program/Answer.antt =====
-- On a machine with plenty of memory every answer to a client comes about, and leaves the pool, the upload
-- and the files in order.
use ccc_upgrade.Base.{
  ℕ, ◌+◌, ◌≤◌, ◌≡◌, refl, ◌∙◌, Bool, some, ◌++◌, arith, inl, inr, Option-cases, length, drop,
  length-append, length-drop,
}
use ccc_upgrade.Base.Bytes.{Bytes, ok}
use ccc_upgrade.Base.Int.{ℤ}
use ccc_upgrade.Packet.{Packet}
use ccc_upgrade.Packet.Laws.{IsValid}
use ccc_upgrade.Pool.{Heap}
use ccc_upgrade.Pool.Stock.{IsStocked, packet_pool_get_buffer-IsStocked, packet_pool_set-IsStocked}
use ccc_upgrade.Client.{send_socket}
use ccc_upgrade.Net.Keeps.{tcp_send-kept}
use ccc_upgrade.Protocol.Frame.{frame}
use ccc_upgrade.Protocol.Create.{length-frame}
use ccc_upgrade.Answers.{send_reply_to_client}
use ccc_upgrade.Adapter.Reply.{send_reply-frame}
use ccc_upgrade.Program.{Machine, World, set_packet, client_send, services}
use ccc_upgrade.Program.Login.{HasMemory}
use ccc_upgrade.Program.Safe.{MallocsNew}

-- There is always memory for a packet and its buffer, and neither `malloc` nor sending changes what is
-- seen of the files.
pub record HasPlenty {X V : Type 0} (m : Machine X) (view : X → V) : Type 0 where
  pub memory_ : (x : X) → HasMemory m x
  pub fresh : MallocsNew m
  pub memory_view : (x : X) → view (m.memory x).1 ≡ view x
  pub node_view : (heap : Heap) (x : X) → view (m.fresh_node heap x).1 ≡ view x
  pub send_view : (sock : ℤ) (data_ : Bytes) (x : X) → view (m.send sock data_ x).1 ≡ view x

-- The pool can go on; the upload, the table of connections and the files are as they were.
pub record IsCalm {X V : Type 0} (view : X → V) (w w' : World X) : Type 0 where
  pub stocked : IsStocked w'.pool
  pub same_upload : w'.upload ≡ w.upload
  pub same_clients : w'.clients ≡ w.clients
  pub same_view : view w'.outside ≡ view w.outside

module _ {X V : Type 0} (m : Machine X) (view : X → V) (plenty : HasPlenty m view) where
  client_send-IsCalm :
      (handle : ℤ) (data_ : Bytes) (w : World X)
      → IsStocked w.pool
      → IsCalm view w (client_send m handle data_ w).1
  client_send-IsCalm handle data_ w h = elim (Option-cases (send_socket w.clients handle)) [
    | inl e ↦
        rw (client_send, e)
          (record { stocked = h; same_upload = refl; same_clients = refl; same_view = refl })
    | inr (sock, e) ↦
        rw (client_send, e)
          (record {
            stocked = h;
            same_upload = refl;
            same_clients = refl;
            same_view =
                tcp_send-kept (λ x. view x ≡ view w.outside) m.send
                  (λ sock data_ x e. plenty.send_view sock data_ x ∙ e) sock (some data_) w.outside
                  refl;
          })
  ]

  pub set_packet-IsCalm :
      (p : Packet) (w : World X)
      → IsStocked w.pool
      → IsValid p
      → (done : Bool) × (w' : World X) × (set_packet m p w ≡ ok (done, w')) × IsCalm view w w'
  unfolding set_packet
  set_packet-IsCalm p w h vp =
      let fresh = m.fresh_node w.pool.heap w.outside in
      let (done, pool', e, h') =
        packet_pool_set-IsStocked fresh.0 p h (plenty.fresh w.pool.heap w.outside) vp in
      (
        done,
        record w { pool = pool'; outside = fresh.1 },
        rw e refl,
        record {
          stocked = h';
          same_upload = refl;
          same_clients = refl;
          same_view = plenty.node_view w.pool.heap w.outside;
        },
      )

  pub answer-IsCalm :
      (handle : ℤ) (cmd cmd_ex : ℕ) (data_ : Bytes) (w : World X)
      → IsStocked w.pool
      → length data_ ≤ 4087
      → (done : Bool) × (w' : World X) × (send_reply_to_client
            (services m)
            handle
            cmd
            cmd_ex
            data_
            w
          ≡ ok (done, w'))
        × IsCalm view w w'
  answer-IsCalm handle cmd cmd_ex data_ w h small =
      let (p, out, pool1, e1, eb, room, sized, h1) =
        packet_pool_get_buffer-IsStocked (m.memory w.outside).0 4095 h (plenty.memory_ w.outside) in
      let w1 : World X = record w { pool = pool1; outside = (m.memory w.outside).1 } in
      let sent : Bytes = frame cmd cmd_ex data_ in
      let p' : Packet = record p { buffer = some (sent ++ drop (length data_ + 9) out) } in
      let sent_all = client_send m handle sent w1 in
      let calm = client_send-IsCalm handle sent w1 h1 in
      let still : length (sent ++ drop (length data_ + 9) out) ≡ p.buffer_size = omega (
        arith,
        sized,
        room,
        length-append {0} sent (drop (length data_ + 9) out),
        length-drop {0} (length data_ + 9) out,
        length-frame cmd cmd_ex data_,
      ) in
      let (done, w3, e3, calm3) = set_packet-IsCalm p' sent_all.1 calm.stocked still in
      (
        sent_all.0,
        w3,
        send_reply-frame (services m) ((services m).network_manager_client_send handle) cmd cmd_ex
              data_ out p w w1 (rw e1 refl) eb room small
            ∙ rw e3 refl,
        record {
          stocked = calm3.stocked;
          same_upload = calm3.same_upload ∙ calm.same_upload;
          same_clients = calm3.same_clients ∙ calm.same_clients;
          same_view = calm3.same_view ∙ calm.same_view ∙ plenty.memory_view w.outside;
        },
      )
