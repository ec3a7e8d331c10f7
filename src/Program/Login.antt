-- ===== src/Program/Login.antt =====
-- A login through all parts of the program.
use ccc_upgrade.Base.{
  ℕ, ◌+◌, ◌≤◌, ◌<◌, ◌≡◌, refl, ap, ◌∙◌, inl, inr, true, some, List, [], ◌∷◌, ◌++◌, arith, length,
  take, drop, All,
}
use ccc_upgrade.Base.Bytes.{Bytes, ok, ◌>>=◌, c_string}
use ccc_upgrade.Base.Int.{ℤ, pos}
use ccc_upgrade.Protocol.{Pdu}
use ccc_upgrade.Protocol.Frame.{frame}
use ccc_upgrade.Packet.{Packet}
use ccc_upgrade.Packet.Laws.{IsValid}
use ccc_upgrade.Pool.Ring.{IsRing, packets}
use ccc_upgrade.Pool.Stock.{Delivers}
use ccc_upgrade.Pool.Buffer.{packet_pool_get_buffer-room}
use ccc_upgrade.Client.{internal_client_manager_login}
use ccc_upgrade.Configure.{password}
use ccc_upgrade.Adapter.{process_protocol_client_login}
use ccc_upgrade.Adapter.Reply.{send_reply-frame, client_login-answer}
use ccc_upgrade.Program.{Machine, World, below, set_packet, client_send, client_set_login, services}

-- There is memory for a packet and for its buffer.
abbrev pub HasMemory : {X : Type 0} → Machine X → X → Type 0
HasMemory m x = Delivers (m.memory x).0 4096

module _ {X : Type 0} (m : Machine X) where
  -- The pool fills what a reply asks of it.
  pool_buffer :
      (w : World X) (full : List (ℕ × Packet)) (spare : List ℕ)
      → IsRing w.pool full spare
      → All IsValid (packets full)
      → HasMemory m w.outside
      → (p : Packet) × (out : Bytes) × (w' : World X) × ((services m).packet_pool_get_buffer
            (pos 4096)
            w
          ≡ ok (some p, w'))
        × (p.buffer ≡ some out)
        × (4096 ≤ length out)
        × (w'.clients ≡ w.clients)
        × (w'.upload ≡ w.upload)
  pool_buffer w full spare r valid h =
      let (p, out, pool', _, _, e, eb, room, _, _, _, _, _) =
        packet_pool_get_buffer-room {pool = w.pool} (m.memory w.outside).0 h.spare full spare 4095 r
          valid h.sized h.for_buffer h.for_packet in
      (
        p,
        out,
        record w { pool = pool'; outside = (m.memory w.outside).1 },
        rw e,
        eb,
        room,
        refl,
        refl,
      )

  -- The login of a client through all parts, for two bytes or more that read as the password up to
  -- the first NUL, where there is memory and the pool is a ring of valid packets: the client table
  -- becomes the one after `internal_client_manager_login` of the client's index, an upload is
  -- untouched, then the packet 0xE1 0x01 with the byte 0xFE is sent to the client, once, and
  -- behind that the packet that was used for the answer is given back to the pool.
  pub client_login-program :
      (ix : ℤ) (pdu : Pdu) (block : Bytes) (n : ℕ) (w : World X) (x1 : X) (full : List (ℕ × Packet))
      (spare : List ℕ)
      → IsRing w.pool full spare
      → All IsValid (packets full)
      → pdu.block ≡ some block
      → pdu.data_len ≡ pos n
      → 1 < n
      → n ≤ length block
      → c_string (take n block) ≡ password
      → m.os.malloc (n + 1) w.outside ≡ (true, x1)
      → HasMemory m x1
      → (w' : World X) × (p : Packet) × (process_protocol_client_login (services m) ix pdu w ≡ (do
        let (result, w2) = client_send m ix (frame 0xE1 1 (0xFE ∷ [])) w'
        (_, w3) ← set_packet m p w2
        ok (result, w3)))
        × (w'.clients ≡ (internal_client_manager_login w.clients ix).1)
        × (w'.upload ≡ w.upload)
  client_login-program ix pdu block n w x1 full spare r valid eb el long fits right got h =
      let w0 : World X = record w { outside = x1 } in
      let w2 : World X = (client_set_login ix w0).1 in
      let malloced : below (m.os.malloc (n + 1)) w ≡ (true, w0) =
        ap (λ a. (a.0, record w { outside = a.1 })) got in
      let (p, out, w3, taken, ep, room, ec, eu) = pool_buffer w2 full spare r valid h in
      elim (client_login-answer (services m) ix pdu block n w w0 eb el long fits malloced) [
        | inr (wrong, _) ↦ absurd (wrong right)
        | inl (_, e) ↦ (
          w3,
          record p { buffer = some (frame 0xE1 1 (0xFE ∷ []) ++ drop 10 out) },
          e
              ∙ send_reply-frame (services m) ((services m).network_manager_client_send ix) 0xE1 1
                  (0xFE ∷ []) out p w2 w3 taken ep room (omega arith),
          ec,
          eu,
        )
      ]
