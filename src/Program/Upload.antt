-- ===== src/Program/Upload.antt =====
-- A stream of the pieces of a file, through all parts of the program.
use ccc_upgrade.Base.{
  ℕ, ◌+◌, ◌*◌, ◌/◌, ◌%◌, ◌^◌, ◌≤◌, ◌<◌, ◌≡◌, refl, sym, ap, subst, ◌∙◌, Bool, true, false, Option,
  some, List, [], ◌∷◌, ◌++◌, append-nil, append_assoc, arith, length, drop, All, length-append,
  length-drop,
}
use ccc_upgrade.Base.Bytes.{Bytes, ok}
use ccc_upgrade.Base.Int.{ℤ, pos}
use ccc_upgrade.Util.Words.{split_four}
use ccc_upgrade.Util.Words.Laws.{signed32_small}
use ccc_upgrade.Protocol.{Pdu}
use ccc_upgrade.Protocol.Parse.RoundTrip.{filled}
use ccc_upgrade.Pool.Stock.{IsStocked}
use ccc_upgrade.Files.{file_upload_write}
use ccc_upgrade.Files.Transfer.{IsFile, NeverFails, file_upload_write-works}
use ccc_upgrade.Md5.Message.{concat}
use ccc_upgrade.Adapter.{process_protocol_pdu}
use ccc_upgrade.Adapter.Upload.{process_protocol_pdu-piece, upload_file_cmd_ex_03-write}
use ccc_upgrade.Adapter.Stream.Frames.{Message, Fits, handle_all}
use ccc_upgrade.Program.{Machine, World, services}
use ccc_upgrade.Program.Answer.{HasPlenty, IsCalm, answer-IsCalm}

-- The packet of a piece that belongs at `offset`, and those of pieces one behind the other.
abbrev pub piece_at : ℕ → Bytes → Message
piece_at offset data_ = record { cmd = 0xE2; cmd_ex = 3; payload = split_four offset ++ data_ }

abbrev pub pieces_at : ℕ → List Bytes → List Message
pieces_at offset [] = []
pieces_at offset (data_ ∷ list) = piece_at offset data_ ∷ pieces_at (offset + length data_) list

-- A piece that fits into a packet behind its offset.
abbrev pub IsPiece : Bytes → Type 0
IsPiece data_ = (0 < length data_) × (length data_ ≤ 4092)

-- The bytes of a word make it up again.
word_sum :
    (w : ℕ)
    → w < 2 ^ 32
    → (w / 2 ^ 24 % 256) * 2 ^ 24
        + (w / 2 ^ 16 % 256) * 2 ^ 16
        + (w / 2 ^ 8 % 256) * 2 ^ 8
        + w % 256
      ≡ w
word_sum w h = omega arith

pub pieces_at-Fits :
    (list : List Bytes) (offset room : ℕ)
    → 4096 ≤ room
    → All IsPiece list
    → All (Fits room) (pieces_at offset list)
pieces_at-Fits [] offset room h fits = tt
pieces_at-Fits (data_ ∷ list) offset room h ((some_data, fit), fits) = (
  (omega (arith, fit, h), omega (arith, fit)),
  pieces_at-Fits list (offset + length data_) room h fits,
)

-- The pool can go on, the upload is open at the handle, and the file holds what was sent so far.
pub record IsSending {X : Type 0} (handle : ℕ) (content : X → Bytes) (w : World X) (sent : Bytes)
    : Type 0 where
  pub stocked : IsStocked w.pool
  pub at_handle : w.upload.file_handle ≡ some handle
  pub held : content w.outside ≡ sent

pub IsSending-calm :
    {X : Type 0} (handle : ℕ) (content : X → Bytes) (w v : World X) (sent : Bytes)
    → IsSending handle content w sent
    → IsCalm content w v
    → IsSending handle content v sent
IsSending-calm handle content w v sent h calm = record {
  stocked = calm.stocked;
  at_handle = ap (λ u. u.file_handle) calm.same_upload ∙ h.at_handle;
  held = calm.same_view ∙ h.held;
}

-- The upload in progress and the table of connections are as they were.
abbrev pub Unmoved : {X : Type 0} → World X → World X → Type 0
Unmoved w w' = (w'.upload ≡ w.upload) × (w'.clients ≡ w.clients)

module _ {X : Type 0} (m : Machine X) (handle : ℕ) (path : Bytes) (content : X → Bytes)
    (place : X → ℕ) (file : IsFile m.os handle path content place)
    (works : NeverFails m.os handle content place) (plenty : HasPlenty m content)
    (dir : Option Bytes) (ix : ℤ) where
  piece_lem :
      (pdu : Pdu) (data_ block sent : Bytes) (w : World X)
      → IsSending handle content w sent
      → 0 < length data_
      → length sent < 2 ^ 31
      → let pdu' = filled pdu 0xE2 3 (split_four (length sent) ++ data_) block in
        (done : Bool) × (w' : World X) × (process_protocol_pdu (services m) dir ix pdu' true w
          ≡ ok (done, w'))
        × IsSending handle content w' (sent ++ data_)
        × Unmoved w w'
  piece_lem pdu data_ block sent w h some_data small =
      let k : ℕ = length sent in
      let pdu' : Pdu = filled pdu 0xE2 3 (split_four k ++ data_) block in
      let (x1, wrote, grown) =
        file_upload_write-works m.os handle path content place file w.upload h.at_handle works data_
          w.outside (subst (λ s. length s < 2 ^ 31) (sym h.held) small) in
      let w1 : World X = record w { outside = x1 } in
      let offset : file_upload_write m.os (pos k) data_ w.upload w.outside ≡ (true, x1) =
        ap (λ s. file_upload_write m.os (pos (length s)) data_ w.upload w.outside) (sym h.held)
        ∙ wrote in
      let (done, w2, answered, calm) =
        answer-IsCalm m content plenty ix 0xE2 3 (0xFE ∷ split_four k) w1 h.stocked (omega arith) in
      let handled =
        upload_file_cmd_ex_03-write (services m) ix pdu' (k / 2 ^ 24 % 256) (k / 2 ^ 16 % 256)
          (k / 2 ^ 8 % 256) (k % 256) (length data_) data_
          (drop (length (split_four k ++ data_)) block) w refl (ap pos (omega arith)) refl some_data
          (omega arith) (omega arith) (omega arith) in
      (
        done,
        w2,
        process_protocol_pdu-piece (services m) dir ix pdu' w refl refl
            ∙ handled
            ∙ rw (word_sum k (omega (arith, small)), signed32_small k small, offset) answered,
        record {
          stocked = calm.stocked;
          at_handle = ap (λ u. u.file_handle) calm.same_upload ∙ h.at_handle;
          held = calm.same_view ∙ grown ∙ ap (λ s. s ++ data_) h.held;
        },
        (calm.same_upload, calm.same_clients),
      )

  pub pieces_lem :
      (list : List Bytes) (pdu : Pdu) (block sent : Bytes) (w : World X)
      → IsSending handle content w sent
      → pdu.block ≡ some block
      → 4096 ≤ length block
      → All IsPiece list
      → length sent + length (concat list) < 2 ^ 31
      → (pdu' : Pdu) × (block' : Bytes) × (w' : World X) × ((rest : List Message)
          → handle_all (services m) dir ix true (pieces_at (length sent) list ++ rest) pdu block w
            ≡ handle_all (services m) dir ix true rest pdu' block' w')
        × IsSending handle content w' (sent ++ concat list)
        × Unmoved w w'
        × (pdu'.block ≡ some block')
        × (length block' ≡ length block)
  pieces_lem [] pdu block sent w h eb room fits small = (
    pdu,
    block,
    w,
    (λ rest. refl),
    subst (IsSending handle content w) (sym (append-nil sent)) h,
    (refl, refl),
    eb,
    refl,
  )
  pieces_lem (data_ ∷ list) pdu block sent w h eb room ((some_data, fit), fits) small =
      let payload : Bytes = split_four (length sent) ++ data_ in
      let off : Pdu = record pdu { b_enable = false } in
      let pdu1 : Pdu = filled off 0xE2 3 payload block in
      let block1 : Bytes = payload ++ drop (length payload) block in
      let longer = length-append {0} sent data_ in
      let kept : length block1 ≡ length block = omega (
        arith,
        fit,
        room,
        length-append {0} payload (drop (length payload) block),
        length-drop {0} (length payload) block,
      ) in
      let (done, w1, e1, h1, u1) =
        piece_lem off data_ block sent w h some_data (omega (arith, small)) in
      let (pdu2, block2, w2, e2, h2, u2, eb2, kept2) =
        pieces_lem list pdu1 block1 (sent ++ data_) w1 h1 refl (omega (arith, kept, room)) fits
          (omega (arith, small, longer, length-append {0} data_ (concat list))) in
      let next : (rest : List Message)
          → handle_all (services m) dir ix true
              (pieces_at (length sent + length data_) list ++ rest) pdu1 block1 w1
            ≡ handle_all (services m) dir ix true rest pdu2 block2 w2 =
        λ rest.
          ap (λ k. handle_all (services m) dir ix true (pieces_at k list ++ rest) pdu1 block1 w1)
            (sym longer)
          ∙ e2 rest in
      (
        pdu2,
        block2,
        w2,
        (λ rest. rw e1 (next rest)),
        subst (IsSending handle content w2) (append_assoc sent data_ (concat list)) h2,
        (u2.0 ∙ u1.0, u2.1 ∙ u1.1),
        eb2,
        kept2 ∙ kept,
      )
