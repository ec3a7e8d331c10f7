-- ===== src/Program/Rounds.antt =====
-- Calls of the callback with whole packets, and the rounds of the receive loop that make them.
use ccc_upgrade.Base.{
  ℕ, ◌+◌, ◌*◌, ◌≤◌, ◌<◌, ◌≡◌, refl, ap, ◌∙◌, Bool, true, Option, some, List, [], ◌∷◌, ◌++◌, arith,
  length, All, length-append,
}
use ccc_upgrade.Base.Bytes.{ok_inv, >>=-eq-ok, Bytes, Run, ok, ◌>>=◌}
use ccc_upgrade.Base.Int.{ℤ, pos}
use ccc_upgrade.Protocol.{Pdu}
use ccc_upgrade.Packet.{Packet}
use ccc_upgrade.Packet.Laws.{IsValid}
use ccc_upgrade.Pool.Stock.{sized-IsValid, IsStocked, packet_pool_get_pdu_buf-IsStocked}
use ccc_upgrade.Client.{
  Slot, Clients, get, output_client_recv_data, Receiver, receive, recv_data_buffer,
}
use ccc_upgrade.Client.Receive.{receive-pending}
use ccc_upgrade.Protocol.Create.{length-frame}
use ccc_upgrade.Adapter.Stream.{with_pdu}
use ccc_upgrade.Adapter.Stream.Frames.{Message, Fits, wire, wires, handle_all, process_data-wires}
use ccc_upgrade.Program.{Machine, World, services, set_packet, callback_by_network_manager}
use ccc_upgrade.Program.Answer.{HasPlenty, IsCalm, set_packet-IsCalm}

-- What the receive loop of a slot calls on the waiting bytes, with the index and the login of its slot.
abbrev pub deliver_from :
    {X : Type 0} → Machine X → Option Bytes → Slot → Bytes → World X → Run (ℕ × World X)
deliver_from m dir s view w =
    output_client_recv_data (some (callback_by_network_manager m dir)) view (get w.clients s).ix
      (get w.clients s).b_login w

-- The slot is logged in, and carries the index.
pub record IsServed (s : Slot) (ix : ℤ) (c : Clients) : Type 0 where
  pub logged_in : (get c s).b_login ≡ true
  pub index : (get c s).ix ≡ ix

pub deliver_lem :
    {X : Type 0} (m : Machine X) (dir : Option Bytes) (s : Slot) (ix : ℤ) (view : Bytes)
    (w : World X) {r : Run (ℕ × World X)}
    → IsServed s ix w.clients
    → callback_by_network_manager m dir ix view true w ≡ r
    → deliver_from m dir s view w ≡ r
unfolding output_client_recv_data
deliver_lem m dir s ix view w h e = rw (h.logged_in, h.index) e

-- The rounds of a receive loop for the pieces of the stream that `recv` returns one after the other.
unfoldable pub receive_all :
    {W : Type 0} → (Bytes → W → Run (ℕ × W)) → List Bytes → Receiver → W → Run (Receiver × W)
receive_all deliver [] r w = ok (r, w)
receive_all deliver (chunk ∷ chunks) r w = do
  (r', w') ← receive deliver chunk r w
  receive_all deliver chunks r' w'

-- The loop waits for the start of a packet, and has its buffer of `2 * RECV_DATA_BUFFER` bytes.
pub record IsWaiting (r : Receiver) : Type 0 where
  pub none_left : r.recv_len ≡ pos 0
  pub buffer : length r.main_buf ≡ recv_data_buffer * 2

-- Bytes that one call of `recv` returns: some, and at most `RECV_DATA_BUFFER`.
abbrev pub IsChunk : Bytes → Type 0
IsChunk chunk = (0 < length chunk) × (length chunk ≤ recv_data_buffer)

receive_all-append :
    {W : Type 0} (deliver : Bytes → W → Run (ℕ × W)) (chunks more : List Bytes) (r r' : Receiver)
    (w w' : W)
    → receive_all deliver chunks r w ≡ ok (r', w')
    → receive_all deliver (chunks ++ more) r w ≡ receive_all deliver more r' w'
unfolding receive_all
receive_all-append deliver [] more r r' w w' e =
    ap (λ x. receive_all deliver more x.0 x.1) (ok_inv e)
receive_all-append deliver (chunk ∷ chunks) more r r' w w' e =
    let ((r1, w1), got, rest) = >>=-eq-ok (receive deliver chunk r w) _ e in
    rw got (receive_all-append deliver chunks more r1 r' w1 w' rest)

-- A first round, some rounds, and a last one.
pub receive_all-ends :
    {W : Type 0} (deliver : Bytes → W → Run (ℕ × W)) (chunk : Bytes) (chunks : List Bytes)
    (last : Bytes) (r r1 r2 r3 : Receiver) (w w1 w2 w3 : W)
    → receive deliver chunk r w ≡ ok (r1, w1)
    → receive_all deliver chunks r1 w1 ≡ ok (r2, w2)
    → receive deliver last r2 w2 ≡ ok (r3, w3)
    → receive_all deliver (chunk ∷ (chunks ++ last ∷ [])) r w ≡ ok (r3, w3)
unfolding receive_all
receive_all-ends deliver chunk chunks last r r1 r2 r3 w w1 w2 w3 e1 e2 e3 =
    rw e1 (receive_all-append deliver chunks (last ∷ []) r1 r2 w1 w2 e2 ∙ rw e3 refl)

-- A round whose bytes are all used.
pub round_lem :
    {W : Type 0} (deliver : Bytes → W → Run (ℕ × W)) (chunk : Bytes) (r : Receiver) (w w' : W)
    → IsWaiting r
    → length chunk ≤ recv_data_buffer
    → deliver chunk w ≡ ok (length chunk, w')
    → (r' : Receiver) × (receive deliver chunk r w ≡ ok (r', w')) × IsWaiting r'
round_lem deliver chunk r w w' h small e =
    let (r', done, left, _, same) =
      receive-pending deliver chunk r w w' 0 (length chunk) h.none_left
        (omega (arith, h.buffer, small)) e (omega arith) in
    (r', done, record { none_left = left ∙ ap pos (omega arith); buffer = same ∙ h.buffer })

pub length-wires_one : (m : Message) → length (wires (m ∷ [])) ≡ 9 + length m.payload
length-wires_one m =
    omega (arith, length-append {0} (wire m) [], length-frame m.cmd m.cmd_ex m.payload)

module _ {X V : Type 0} (m : Machine X) (view : X → V) (dir : Option Bytes) (ix : ℤ) where
  -- The packets can be handled, whatever block they are read into, and `Q` holds afterwards.
  pub record CanHandle (ms : List Message) (w : World X) (Q : World X → Type 0) : Type 0 where
    pub handled :
        (pdu : Pdu) (block : Bytes) (v : World X)
        → IsCalm view w v
        → pdu.block ≡ some block
        → 4096 ≤ length block
        → (pdu' : Pdu) × (block' : Bytes) × (w2 : World X) × (handle_all
              (services m)
              dir
              ix
              true
              ms
              pdu
              block
              v
            ≡ ok (pdu', w2))
          × (pdu'.block ≡ some block')
          × (length block' ≡ length block)
          × IsStocked w2.pool
          × Q w2

module _ {X V : Type 0} (m : Machine X) (view : X → V) (plenty : HasPlenty m view)
    (dir : Option Bytes) (ix : ℤ) where
  -- A call of the callback with whole packets: all bytes are used, and the last that it does is to give
  -- the packet back.
  pub call_lem :
      (ms : List Message) (w : World X) (Q : World X → Type 0)
      → IsStocked w.pool
      → ((room : ℕ) → 4096 ≤ room → All (Fits room) ms)
      → CanHandle m view dir ix ms w Q
      → (p : Packet) × (given : Bool) × (w2 : World X) × (w3 : World X)
        × (callback_by_network_manager m dir ix (wires ms) true w ≡ ok (length (wires ms), w3))
        × (set_packet m p w2 ≡ ok (given, w3))
        × Q w2
        × IsCalm view w2 w3
  unfolding callback_by_network_manager
  call_lem ms w Q stocked fits can =
      let (p, block, pool1, e1, eb, room, sized, h1) =
        packet_pool_get_pdu_buf-IsStocked (m.memory w.outside).0 4095 stocked
          (plenty.memory_ w.outside) in
      let v1 : World X = record w { pool = pool1; outside = (m.memory w.outside).1 } in
      let calm : IsCalm view w v1 = record {
        stocked = h1;
        same_upload = refl;
        same_clients = refl;
        same_view = plenty.memory_view w.outside;
      } in
      let (pdu, block', w2, e2, eb2, kept, h2, q) = can.handled p.un_pdu block v1 calm eb room in
      let valid : IsValid (with_pdu p pdu) = sized-IsValid (with_pdu p pdu) eb2 (kept ∙ sized) in
      let (given, w3, e3, calm3) = set_packet-IsCalm m view plenty (with_pdu p pdu) w2 h2 valid in
      (
        with_pdu p pdu,
        given,
        w2,
        w3,
        process_data-wires (services m) dir ix true ms p block w v1 (rw e1 refl) eb
              (fits (length block) room)
            ∙ rw (e2, e3) refl,
        e3,
        q,
        calm3,
      )
