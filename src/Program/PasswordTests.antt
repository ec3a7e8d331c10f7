-- ===== src/Program/PasswordTests.antt =====
-- A run without the password.
use ccc_upgrade.Base.{
  ◌≡◌, ap, false, none, [], ◌∷◌, ◌++◌, arith, length, get_or, All, length-append,
}
use ccc_upgrade.Base.Bytes.{IsByte}
use ccc_upgrade.Util.Words.{split_four}
use ccc_upgrade.Client.{Slot, first, get}
use ccc_upgrade.Files.{no_upload}
use ccc_upgrade.Protocol.Frame.{frame, body, trailer}
use ccc_upgrade.Adapter.Stream.Password.{HoldsPassword}
use ccc_upgrade.Program.Steps.{receiving, received, start, later}
use ccc_upgrade.Program.Password.{LacksPassword, Reach-no_login}
use ccc_upgrade.Program.StepTests.{small_machine, after_request, request, handled_lem}

request_bytes : All IsByte request
request_bytes = ground arith

request-lacks : LacksPassword request
request-lacks = (request_bytes, lacks)
  where
    lacks : ¬ HoldsPassword request
    lacks ([], cmd_ex, text, back, e, right) = absurd (omega (arith, ap (λ t. get_or t 1 0) e))
    lacks (f ∷ front, cmd_ex, text, back, e, right) = absurd (
        omega (
          arith,
          ap (length {0}) e,
          length-append {0} front (frame 0xE1 cmd_ex text ++ back),
          length-append {0} (frame 0xE1 cmd_ex text) back,
          length-append {0} (body 0xE1 cmd_ex text) (trailer (body 0xE1 cmd_ex text)),
          length-append {0} (split_four (length text)) text,
        ))

Reach-no_login_example :
    ((s : Slot) → (get after_request.clients s).b_login ≡ false)
    × (after_request.upload ≡ no_upload)
Reach-no_login_example =
    Reach-no_login small_machine none
      (later (receiving first) start (received first request handled_lem)) (tt, request-lacks)
