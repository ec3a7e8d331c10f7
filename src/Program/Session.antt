-- ===== src/Program/Session.antt =====
-- A whole upload through the receive loop of a client, through all parts of the program.
use ccc_upgrade.Base.{
  ℕ, ◌+◌, ◌^◌, ◌≤◌, ◌<◌, ◌≡◌, refl, sym, ap, subst, ◌∙◌, Bool, true, false, Option, none, some,
  List, [], ◌∷◌, ◌++◌, arith, length, drop, All, length-append, length-drop, All-split,
}
use ccc_upgrade.Base.Bytes.{Bytes, Run, ok, ◌>>=◌, c_string}
use ccc_upgrade.Base.Int.{ℤ}
use ccc_upgrade.Protocol.{Pdu}
use ccc_upgrade.Protocol.Parse.RoundTrip.{filled}
use ccc_upgrade.Packet.{Packet}
use ccc_upgrade.Pool.Stock.{IsStocked}
use ccc_upgrade.Client.{Slot, Clients, Receiver}
use ccc_upgrade.Files.Opening.{IsStarted, CanOpen, file_upload_open-works}
use ccc_upgrade.Files.Transfer.{IsFile, NeverFails, same_nocase_self}
use ccc_upgrade.Md5.{hex_text}
use ccc_upgrade.Md5.Message.{digest_of}
use ccc_upgrade.Util.Text.{with_slash}
use ccc_upgrade.Answers.{send_reply_to_client}
use ccc_upgrade.Adapter.{status, process_protocol_pdu}
use ccc_upgrade.Adapter.Upload.{process_protocol_pdu-open}
use ccc_upgrade.Adapter.Stream.Frames.{Message, wires}
use ccc_upgrade.Program.{Machine, World, services, set_packet}
use ccc_upgrade.Program.Answer.{HasPlenty, answer-IsCalm}
use ccc_upgrade.Program.Upload.{IsSending, IsSending-calm, IsPiece}
use ccc_upgrade.Program.Rounds.{
  deliver_from, IsServed, deliver_lem, receive_all, receive_all-ends, IsWaiting, IsChunk, round_lem,
  length-wires_one, CanHandle, call_lem,
}
use ccc_upgrade.Program.Pieces.{file_of, chunks_at, groups_lem}
use ccc_upgrade.Program.Verdict.{finish_message, CanCheck, verdict, Judged, finish-CanHandle}

-- The packet that starts an upload.
abbrev pub open_message : Bytes → Message
open_message title = record { cmd = 0xE2; cmd_ex = 2; payload = title }

-- The bytes of an upload as the receive loop gets them: the start, the pieces in groups, and the end.
abbrev pub upload_chunks : Bytes → List (List Bytes) → Bytes → List Bytes
upload_chunks title groups md5sum =
    wires (open_message title ∷ [])
    ∷ (chunks_at 0 groups ++ wires (finish_message md5sum ∷ []) ∷ [])

-- The receive loop takes all chunks. The last answer, before the packet is given back, is the verdict on
-- the upload. Then nothing is left in the buffer of the loop, the upload has no handle, and the pool
-- is sound and holds valid packets.
abbrev pub Concludes :
    {X : Type 0}
    → Machine X
    → Option Bytes
    → ℤ
    → Slot
    → Receiver
    → World X
    → List Bytes
    → Bool
    → Type 0
Concludes {X} m dir ix s r w chunks right =
    (w1 : World X) × (w2 : World X) × (w3 : World X) × (p : Packet) × (sent : Bool) × (given : Bool)
    × (r' : Receiver) × (receive_all (deliver_from m dir s) chunks r w ≡ (do
      (_, v) ← send_reply_to_client (services m) ix 0xE2 4 (status right ∷ []) w1
      (_, v') ← set_packet m p v
      ok (r', v')))
    × (send_reply_to_client (services m) ix 0xE2 4 (status right ∷ []) w1 ≡ ok (sent, w2))
    × (set_packet m p w2 ≡ ok (given, w3))
    × IsWaiting r'
    × (w3.upload.file_handle ≡ none)
    × IsStocked w3.pool

answer_lem :
    {X A : Type 0} (m : Machine X) (ix : ℤ) (right : Bool) (w1 w2 w3 : World X) (p : Packet)
    (sent given : Bool) (a : A)
    → send_reply_to_client (services m) ix 0xE2 4 (status right ∷ []) w1 ≡ ok (sent, w2)
    → set_packet m p w2 ≡ ok (given, w3)
    → ◌≡◌ {A = Run (A × World X)}
        (do
          (_, v) ← send_reply_to_client (services m) ix 0xE2 4 (status right ∷ []) w1
          (_, v') ← set_packet m p v
          ok (a, v'))
        (ok (a, w3))
answer_lem m ix right w1 w2 w3 p sent given a answered back = rw (answered, back) refl

module _ {X : Type 0} (m : Machine X) (handle : ℕ) (dir title : Bytes) (content : X → Bytes)
    (place : X → ℕ) (some_dir : 0 < length dir) (some_title : 0 < length (c_string title))
    (can_open : CanOpen m.os dir (c_string title) handle content) (plenty : HasPlenty m content)
    (ix : ℤ) where
  abbrev path : Bytes
  path = with_slash dir ++ c_string title

  -- The upload has begun, with an empty file.
  abbrev HasBegun : Clients → World X → Type 0
  HasBegun c w = IsSending handle content w [] × IsStarted w.upload handle path × (w.clients ≡ c)

  open_lem :
      (pdu : Pdu) (block : Bytes) (w : World X)
      → IsStocked w.pool
      → 1 < length title
      → let pdu' = filled pdu 0xE2 2 title block in
        (done : Bool) × (w' : World X) × (process_protocol_pdu
            (services m)
            (some dir)
            ix
            pdu'
            true
            w
          ≡ ok (done, w'))
        × IsSending handle content w' []
        × IsStarted w'.upload handle path
        × (w'.clients ≡ w.clients)
  open_lem pdu block w stocked long =
      let n : ℕ = length title in
      let (x1, got, _) = can_open.mallocs (n + 1) w.outside in
      let w1 : World X = record w { outside = x1 } in
      let (u', x2, opened, started, empty) =
        file_upload_open-works m.os dir (c_string title) handle content can_open some_dir some_title
          w.upload x1 in
      let w2 : World X = record w { upload = u'; outside = x2 } in
      let (done, w3, answered, calm) =
        answer-IsCalm m content plenty ix 0xE2 2 (0xFE ∷ []) w2 stocked (omega arith) in
      (
        done,
        w3,
        process_protocol_pdu-open (services m) (some dir) ix (filled pdu 0xE2 2 title block) title
              (drop n block) n w w1 refl refl refl refl refl long
              (ap (λ a. (a.0, record w { outside = a.1 })) got)
            ∙ rw opened answered,
        record {
          stocked = calm.stocked;
          at_handle = ap (λ u. u.file_handle) calm.same_upload ∙ started.at_handle;
          held = calm.same_view ∙ empty;
        },
        subst (λ u. IsStarted u handle path) (sym calm.same_upload) started,
        calm.same_clients,
      )

  open-CanHandle :
      (w : World X)
      → 1 < length title
      → length title ≤ 4087
      → CanHandle m content (some dir) ix (open_message title ∷ []) w (HasBegun w.clients)
  open-CanHandle w long titled = record {
    handled = λ pdu block v calm eb room.
        let off : Pdu = record pdu { b_enable = false } in
        let (opened, w2, e, begin, u, same) = open_lem off block v calm.stocked long in
        (
          filled off 0xE2 2 title block,
          title ++ drop (length title) block,
          w2,
          rw e refl,
          refl,
          omega (
            arith,
            room,
            titled,
            length-append {0} title (drop (length title) block),
            length-drop {0} (length title) block,
          ),
          begin.stocked,
          (begin, u, same ∙ calm.same_clients),
        );
  }

  -- A whole upload that comes through the receive loop of a slot that is logged in and carries the
  -- index `ix`, whatever upload there was before, while no other thread does anything: a round for
  -- its start, with a title of at least 2 bytes, rounds for the pieces of a file of less than 2 GB,
  -- of 1 to 4092 bytes each and one behind the other, and a round for its end, with the text of a
  -- sum that is not empty. Each round gets whole packets, as many as `recv` can return at once: at
  -- most 4096 bytes. The directory is there and has a name, the title has a byte before its first
  -- NUL, there is plenty of memory, which leaves the file alone as the sending does, and the calls
  -- of the system for this file succeed: it is created empty, every write ends up in it, and it can
  -- be read. The pool is sound and holds valid packets, and the buffer of the loop is empty. Then
  -- the program takes all of it. The last answer that it makes, before it gives the packet back to
  -- the pool, is the verdict: whether the text of the sum, up to its first NUL, begins, in either
  -- case of letters, with the MD5 sum of all the pieces in their order, which the right sum does.
  -- Afterwards the upload has no handle any more, the pool is again as it was assumed to be, and so
  -- is the buffer of the loop.
  pub upload-program :
      (file : IsFile m.os handle path content place)
      → NeverFails m.os handle content place
      → CanCheck m handle path content
      → (groups : List (List Bytes)) (md5sum : Bytes) (s : Slot) (r : Receiver) (w : World X)
      → IsServed s ix w.clients
      → IsStocked w.pool
      → IsWaiting r
      → 1 < length title
      → All (All IsPiece) groups
      → length (file_of groups) < 2 ^ 31
      → 0 < length md5sum
      → All IsChunk (upload_chunks title groups md5sum)
      → let right = verdict (c_string md5sum) (file_of groups) in
        Concludes m (some dir) ix s r w (upload_chunks title groups md5sum) right
        × (c_string md5sum ≡ hex_text (digest_of (file_of groups)) → right ≡ true)
  upload-program file works check groups md5sum s r w served stocked wait long fits small some_text
        (first, others) =
      let deliver : Bytes → World X → Run (ℕ × World X) = deliver_from m (some dir) s in
      let (middle, last) = All-split IsChunk (chunks_at 0 groups) _ others in
      let titled : length title ≤ 4087 =
        omega (arith, first.1, length-wires_one (open_message title)) in
      let short : length md5sum ≤ 4086 =
        omega (arith, last.0.1, length-wires_one (finish_message md5sum)) in
      let (_, _, v1, v2, e1, _, (begun, started, kept), calm1) =
        call_lem m content plenty (some dir) ix (open_message title ∷ []) w (HasBegun w.clients)
          stocked (λ room h. ((omega (arith, h, titled), omega (arith, titled)), tt))
          (open-CanHandle w long titled) in
      let (r1, d1, wait1) =
        round_lem deliver _ r w v2 wait first.1 (deliver_lem m (some dir) s ix _ w served e1) in
      let (r2, v3, d2, wait2, (sending, same)) =
        groups_lem m handle path content place file works plenty (some dir) ix s groups [] r1 v2
          (subst (IsServed s ix) (sym (calm1.same_clients ∙ kept)) served)
          (IsSending-calm handle content v1 v2 [] begun calm1) wait1 fits middle
          (omega (arith, small)) in
      let still : IsServed s ix v3.clients =
        subst (IsServed s ix) (sym (same.1 ∙ calm1.same_clients ∙ kept)) served in
      let right : Bool = verdict (c_string md5sum) (file_of groups) in
      let (p, given, w2, w3, e3, back, (w1, sent, answered, closed), calm3) =
        call_lem m content plenty (some dir) ix (finish_message md5sum ∷ []) v3 (Judged m ix right)
          sending.stocked (λ room h. ((omega (arith, h, short), omega (arith, short)), tt))
          (finish-CanHandle m handle path content place file works plenty check (some dir) ix md5sum
            (file_of groups) v3 sending
            (subst (λ u. IsStarted u handle path) (sym (same.0 ∙ calm1.same_upload)) started)
            some_text (omega (arith, short))) in
      let (r3, d3, wait3) =
        round_lem deliver _ r2 v3 w3 wait2 last.0.1 (deliver_lem m (some dir) s ix _ v3 still e3) in
      (
        (
          w1,
          w2,
          w3,
          p,
          sent,
          given,
          r3,
          receive_all-ends deliver _ (chunks_at 0 groups) _ r r1 r2 r3 w v2 v3 w3 d1 d2 d3
              ∙ sym (answer_lem m ix right w1 w2 w3 p sent given r3 answered back),
          answered,
          back,
          wait3,
          ap (λ x. x.file_handle) calm3.same_upload ∙ closed,
          calm3.stocked,
        ),
        λ same. rw same (same_nocase_self (hex_text (digest_of (file_of groups)))),
      )
