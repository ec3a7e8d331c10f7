-- ===== src/Program/Pieces.antt =====
-- The rounds of the receive loop for the pieces of a file, several packets to a round.
use ccc_upgrade.Base.{
  ℕ, ◌+◌, ◌^◌, ◌<◌, ◌≡◌, refl, sym, ap, subst, ◌∙◌, true, Option, List, [], ◌∷◌, ◌++◌, append-nil,
  append_assoc, arith, length, All, length-append,
}
use ccc_upgrade.Base.Bytes.{Bytes, Run, ok}
use ccc_upgrade.Base.Int.{ℤ}
use ccc_upgrade.Client.{Slot, Receiver}
use ccc_upgrade.Files.Transfer.{IsFile, NeverFails}
use ccc_upgrade.Md5.Message.{concat}
use ccc_upgrade.Adapter.Stream.Frames.{handle_all, wires}
use ccc_upgrade.Program.{Machine, World, services}
use ccc_upgrade.Program.Answer.{HasPlenty}
use ccc_upgrade.Program.Upload.{
  Unmoved, IsSending, IsSending-calm, IsPiece, pieces_at, pieces_at-Fits, pieces_lem,
}
use ccc_upgrade.Program.Rounds.{
  deliver_from, IsServed, deliver_lem, receive_all, IsWaiting, IsChunk, round_lem, CanHandle,
  call_lem,
}

-- The file that the groups of pieces make up, and the bytes that each round gets.
abbrev pub file_of : List (List Bytes) → Bytes
file_of [] = []
file_of (list ∷ groups) = concat list ++ file_of groups

abbrev pub chunks_at : ℕ → List (List Bytes) → List Bytes
chunks_at offset [] = []
chunks_at offset (list ∷ groups) =
    wires (pieces_at offset list) ∷ chunks_at (offset + length (concat list)) groups

module _ {X : Type 0} (m : Machine X) (handle : ℕ) (path : Bytes) (content : X → Bytes)
    (place : X → ℕ) (file : IsFile m.os handle path content place)
    (works : NeverFails m.os handle content place) (plenty : HasPlenty m content)
    (dir : Option Bytes) (ix : ℤ) (s : Slot) where
  -- What a group of pieces leaves.
  abbrev HasGrown : World X → Bytes → World X → Type 0
  HasGrown w sent w' = IsSending handle content w' sent × Unmoved w w'

  group-CanHandle :
      (list : List Bytes) (sent : Bytes) (w : World X)
      → IsSending handle content w sent
      → All IsPiece list
      → length sent + length (concat list) < 2 ^ 31
      → CanHandle m content dir ix
          (pieces_at (length sent) list)
          w
          (HasGrown w (sent ++ concat list))
  group-CanHandle list sent w h fits small = record {
    handled = λ pdu block v calm eb room.
        let (pdu', block', w2, e, h2, u, eb', kept) =
          pieces_lem m handle path content place file works plenty dir ix list pdu block sent v
            (IsSending-calm handle content w v sent h calm) eb room fits small in
        let plain = append-nil (pieces_at (length sent) list) in
        (
          pdu',
          block',
          w2,
          ap (λ ms. handle_all (services m) dir ix true ms pdu block v) (sym plain) ∙ e [],
          eb',
          kept,
          h2.stocked,
          (h2, (u.0 ∙ calm.same_upload, u.1 ∙ calm.same_clients)),
        );
  }

  pub groups_lem :
      (groups : List (List Bytes)) (sent : Bytes) (r : Receiver) (w : World X)
      → IsServed s ix w.clients
      → IsSending handle content w sent
      → IsWaiting r
      → All (All IsPiece) groups
      → All IsChunk (chunks_at (length sent) groups)
      → length sent + length (file_of groups) < 2 ^ 31
      → (r' : Receiver) × (w' : World X) × (receive_all
            (deliver_from m dir s)
            (chunks_at (length sent) groups)
            r
            w
          ≡ ok (r', w'))
        × IsWaiting r'
        × HasGrown w (sent ++ file_of groups) w'
  unfolding receive_all
  groups_lem [] sent r w served h wait fits chunks small = (
    r,
    w,
    refl,
    wait,
    (subst (IsSending handle content w) (sym (append-nil sent)) h, (refl, refl)),
  )
  groups_lem (list ∷ groups) sent r w served h wait (fit, fits) (chunk, chunks) small =
      let longer = length-append {0} sent (concat list) in
      let total = length-append {0} (concat list) (file_of groups) in
      let deliver : Bytes → World X → Run (ℕ × World X) = deliver_from m dir s in
      let (p, given, w2, w3, e, _, (h2, u2), calm) =
        call_lem m content plenty dir ix (pieces_at (length sent) list) w
          (HasGrown w (sent ++ concat list)) h.stocked
          (λ room some_room. pieces_at-Fits list (length sent) room some_room fit)
          (group-CanHandle list sent w h fit (omega (arith, small, total))) in
      let (r1, e1, wait1) =
        round_lem deliver (wires (pieces_at (length sent) list)) r w w3 wait chunk.1
          (deliver_lem m dir s ix (wires (pieces_at (length sent) list)) w served e) in
      let next : All IsChunk (chunks_at (length (sent ++ concat list)) groups) =
        subst (λ k. All IsChunk (chunks_at k groups)) (sym longer) chunks in
      let (r2, w4, e2, wait2, (h4, u4)) =
        groups_lem groups (sent ++ concat list) r1 w3
          (subst (IsServed s ix) (sym (calm.same_clients ∙ u2.1)) served)
          (IsSending-calm handle content w2 w3 (sent ++ concat list) h2 calm) wait1 fits next
          (omega (arith, small, longer, total)) in
      (
        r2,
        w4,
        rw e1 (ap (λ k. receive_all deliver (chunks_at k groups) r1 w3) (sym longer) ∙ e2),
        wait2,
        (
          subst (IsSending handle content w4) (append_assoc sent (concat list) (file_of groups)) h4,
          (u4.0 ∙ calm.same_upload ∙ u2.0, u4.1 ∙ calm.same_clients ∙ u2.1),
        ),
      )
