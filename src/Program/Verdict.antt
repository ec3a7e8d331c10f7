-- ===== src/Program/Verdict.antt =====
-- The end of an upload through all parts of the program.
use ccc_upgrade.Base.{
  ℕ, ◌+◌, ◌≤◌, ◌<◌, ◌≡◌, refl, sym, ap, subst, ◌∙◌, Bool, true, false, Option, none, some, List, [],
  ◌∷◌, ◌++◌, arith, length, drop, length-append, length-drop,
}
use ccc_upgrade.Base.Bytes.{Bytes, ok, c_string}
use ccc_upgrade.Base.Int.{ℤ, pos}
use ccc_upgrade.Util.Text.{same_nocase}
use ccc_upgrade.Protocol.{Pdu}
use ccc_upgrade.Protocol.Parse.RoundTrip.{filled}
use ccc_upgrade.Pool.Stock.{IsStocked}
use ccc_upgrade.Files.Opening.{IsStarted}
use ccc_upgrade.Files.Transfer.{IsFile, NeverFails, finish_verdict}
use ccc_upgrade.Md5.{hex_text}
use ccc_upgrade.Md5.Message.{digest_of}
use ccc_upgrade.Answers.{send_reply_to_client}
use ccc_upgrade.Adapter.{status, process_protocol_pdu}
use ccc_upgrade.Adapter.Upload.{process_protocol_pdu-finish}
use ccc_upgrade.Adapter.Stream.Frames.{Message}
use ccc_upgrade.Program.{Machine, World, services}
use ccc_upgrade.Program.Answer.{HasPlenty, answer-IsCalm}
use ccc_upgrade.Program.Rounds.{CanHandle}
use ccc_upgrade.Program.Upload.{IsSending-calm, IsSending}

-- The packet that ends an upload, with the sum that the client has made.
abbrev pub finish_message : Bytes → Message
finish_message md5sum = record { cmd = 0xE2; cmd_ex = 4; payload = 0xFE ∷ md5sum }

-- There is memory for a copy of the sum, and the file that was closed can be read.
pub record CanCheck {X : Type 0} (m : Machine X) (handle : ℕ) (path : Bytes) (content : X → Bytes)
    : Type 0 where
  pub mallocs :
      (size : ℕ) (x : X) → (x' : X) × (m.os.malloc size x ≡ (true, x')) × (content x' ≡ content x)
  pub opens :
      (x : X)
      → (chunks : List Bytes) × (x' : X) × (m.os.fopen_read path (m.os.fclose handle x)
          ≡ (some chunks, x'))

-- The verdict on a file that holds `total`, for the text of a sum.
abbrev pub verdict : Bytes → Bytes → Bool
verdict text total = let right = hex_text (digest_of total) in same_nocase (length right) text right

-- What the call that ends an upload leaves, before it gives the packet back: the verdict has been sent, and
-- the upload has no handle any more.
abbrev pub Judged : {X : Type 0} → Machine X → ℤ → Bool → World X → Type 0
Judged {X} m ix right w2 =
    (w1 : World X) × (sent : Bool) × (send_reply_to_client (services m) ix 0xE2 4
        (status right ∷ []) w1
      ≡ ok (sent, w2))
    × (w2.upload.file_handle ≡ none)

module _ {X : Type 0} (m : Machine X) (handle : ℕ) (path : Bytes) (content : X → Bytes)
    (place : X → ℕ) (file : IsFile m.os handle path content place)
    (works : NeverFails m.os handle content place) (plenty : HasPlenty m content)
    (check : CanCheck m handle path content) (dir : Option Bytes) (ix : ℤ) where
  pub finish_lem :
      (pdu : Pdu) (block md5sum total : Bytes) (w : World X)
      → IsSending handle content w total
      → IsStarted w.upload handle path
      → 0 < length md5sum
      → let pdu' = filled pdu 0xE2 4 (0xFE ∷ md5sum) block in
        (w1 : World X) × (process_protocol_pdu (services m) dir ix pdu' true w
          ≡ send_reply_to_client
              (services m)
              ix
              0xE2
              4
              (status (verdict (c_string md5sum) total) ∷ [])
              w1)
        × IsStocked w1.pool
        × (w1.upload.file_handle ≡ none)
  finish_lem pdu block md5sum total w h u some_text =
      let n : ℕ = length md5sum in
      let (x1, got, same) = check.mallocs (n + 1) w.outside in
      let (chunks, x2, opened) = check.opens x1 in
      let w1 : World X = record w { outside = x1 } in
      let (u', e, closed) =
        finish_verdict m.os handle path content place file w.upload u.at_handle (c_string md5sum)
          total x1 x2 chunks u.at_path u.name u.named (same ∙ h.held) opened in
      let handled =
        process_protocol_pdu-finish (services m) dir ix (filled pdu 0xE2 4 (0xFE ∷ md5sum) block)
          md5sum (drop (length (0xFE ∷ md5sum)) block) n w w1 refl refl refl (ap pos (omega arith))
          refl some_text (ap (λ a. (a.0, record w { outside = a.1 })) got) in
      (record w { upload = u'; outside = x2 }, handled ∙ rw e refl, h.stocked, closed)

  pub finish-CanHandle :
      (md5sum total : Bytes) (w : World X)
      → IsSending handle content w total
      → IsStarted w.upload handle path
      → 0 < length md5sum
      → length md5sum ≤ 4095
      → CanHandle m content dir ix
          (finish_message md5sum ∷ [])
          w
          (Judged m ix (verdict (c_string md5sum) total))
  finish-CanHandle md5sum total w h u some_text short = record {
    handled = λ pdu block v calm eb room.
        let started = subst (λ u. IsStarted u handle path) (sym calm.same_upload) u in
        let sending = IsSending-calm handle content w v total h calm in
        let off : Pdu = record pdu { b_enable = false } in
        let right : Bool = verdict (c_string md5sum) total in
        let (w1, e1, h1, closed) = finish_lem off block md5sum total v sending started some_text in
        let (sent, w2, e2, calm2) =
          answer-IsCalm m content plenty ix 0xE2 4 (status right ∷ []) w1 h1 (omega arith) in
        (
          filled off 0xE2 4 (0xFE ∷ md5sum) block,
          (0xFE ∷ md5sum) ++ drop (length (0xFE ∷ md5sum)) block,
          w2,
          rw (e1, e2) refl,
          refl,
          omega (
            arith,
            room,
            short,
            length-append {0} (0xFE ∷ md5sum) (drop (length (0xFE ∷ md5sum)) block),
            length-drop {0} (length (0xFE ∷ md5sum)) block,
          ),
          calm2.stocked,
          (w1, sent, e2, ap (λ x. x.file_handle) calm2.same_upload ∙ closed),
        );
  }
