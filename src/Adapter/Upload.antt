-- ===== src/Adapter/Upload.antt =====
-- The steps of an upload as the adapter takes them.
use ccc_upgrade.Base.{
  ℕ, ◌+◌, ◌-◌, ◌*◌, ◌^◌, ◌≤◌, ◌<◌, ◌≡◌, refl, sym, ap, ◌∙◌, inl, inr, true, false, Option, some, [],
  ◌∷◌, ◌++◌, arith, length, take, drop, length-append, take-append_left,
}
use ccc_upgrade.Base.Bytes.{c_string, Bytes, ok, ◌>>=◌, load, load_fits, Run-cases}
use ccc_upgrade.Base.Int.{ℤ, pos, ltb_ℤ, signed32}
use ccc_upgrade.Util.Words.{four_bytes_to_uint}
use ccc_upgrade.Util.Words.Laws.{join_four-sum}
use ccc_upgrade.Protocol.{Pdu}
use ccc_upgrade.Services.{Services}
use ccc_upgrade.Answers.{send_reply_to_client}
use ccc_upgrade.Adapter.{
  process_protocol_upload_file_cmd_ex_02, copy_string, process_protocol_upload_file_cmd_ex_04,
  status, process_protocol_pdu, process_protocol_pdu_after_login, process_protocol_upload_file,
  process_protocol_upload_file_cmd_ex_03,
}
use ccc_upgrade.Adapter.Reply.{copy_string_lem}

module _ {W : Type 0} (s : Services W) where
  -- The answer to a piece of a file of four bytes or fewer: an error and the first four bytes of the
  -- packet's buffer, which hold what an earlier packet has left where the data is shorter.
  pub upload_file_cmd_ex_03_short :
      (handle : ℤ) (pdu : Pdu) (block : Bytes) (n : ℕ) (w : W)
      → pdu.block ≡ some block
      → pdu.data_len ≡ pos n
      → n ≤ 4
      → 4 ≤ length block
      → process_protocol_upload_file_cmd_ex_03 s handle pdu w
        ≡ send_reply_to_client s handle 0xE2 3 (0xFF ∷ take 4 block) w
  unfolding process_protocol_upload_file_cmd_ex_03
  upload_file_cmd_ex_03_short handle pdu block n w eb el short fits =
      let none_written : ltb_ℤ (pos 4) (pos n) ≡ false = ground arith in
      rw (eb, el, none_written, load_fits 4 block fits)

  -- A piece of a file of more than four bytes: those behind the fourth are written at the offset that
  -- the first four stand for, most significant first, and the offset is sent back with the status.
  pub upload_file_cmd_ex_03-write :
      (handle : ℤ) (pdu : Pdu) (a b c d n : ℕ) (piece back : Bytes) (w : W)
      → pdu.block ≡ some (a ∷ b ∷ c ∷ d ∷ (piece ++ back))
      → pdu.data_len ≡ pos (4 + n)
      → length piece ≡ n
      → 0 < n
      → b < 256
      → c < 256
      → d < 256
      → process_protocol_upload_file_cmd_ex_03 s handle pdu w ≡ (do
        (done, w1) ←
            s.file_upload_write (signed32 (a * 2 ^ 24 + b * 2 ^ 16 + c * 2 ^ 8 + d)) piece w
        send_reply_to_client s handle 0xE2 3 (status done ∷ a ∷ b ∷ c ∷ d ∷ []) w1)
  unfolding process_protocol_upload_file_cmd_ex_03 four_bytes_to_uint
  upload_file_cmd_ex_03-write handle pdu a b c d n piece back w eb el sized some_data hb hc hd =
      let more : ltb_ℤ (pos 4) (pos (4 + n)) ≡ true = ground arith in
      let counted : 4 + n - 4 ≡ n = omega arith in
      let loaded : load n (piece ++ back) ≡ ok piece =
        load_fits n (piece ++ back) (omega (arith, sized, length-append {0} piece back))
        ∙ ap ok (take-append_left piece back n (sym sized)) in
      let four : load 4 (a ∷ b ∷ c ∷ d ∷ (piece ++ back)) ≡ ok (a ∷ b ∷ c ∷ d ∷ []) =
        load_fits 4 (a ∷ b ∷ c ∷ d ∷ (piece ++ back)) (omega arith) in
      let offset : four_bytes_to_uint (some (a ∷ b ∷ c ∷ d ∷ (piece ++ back))) (pos 4)
          ≡ a * 2 ^ 24 + b * 2 ^ 16 + c * 2 ^ 8 + d =
        join_four-sum a b c d (piece ++ back) hb hc hd in
      rw (eb, el, more, counted, loaded, offset, four)
        (elim (Run-cases
          (s.file_upload_write (signed32 (a * 2 ^ 24 + b * 2 ^ 16 + c * 2 ^ 8 + d)) piece w)) [
            | inl e ↦ rw e
            | inr (r, e) ↦ rw e
          ])

  -- The dispatch of a piece for a client that is logged in.
  pub process_protocol_pdu-piece :
      (dir : Option Bytes) (handle : ℤ) (pdu : Pdu) (w : W)
      → pdu.cmd ≡ 0xE2
      → pdu.cmd_ex ≡ 3
      → process_protocol_pdu s dir handle pdu true w
        ≡ process_protocol_upload_file_cmd_ex_03 s handle pdu w
  unfolding process_protocol_pdu process_protocol_pdu_after_login process_protocol_upload_file
  process_protocol_pdu-piece dir handle pdu w ec ex = rw (ec, ex) refl

  -- The start of an upload for a client that is logged in, with a title of two bytes or more: the text
  -- up to the first NUL is the title, and the outcome is sent back.
  pub process_protocol_pdu-open :
      (dir : Option Bytes) (handle : ℤ) (pdu : Pdu) (text back : Bytes) (n : ℕ) (w w1 : W)
      → pdu.cmd ≡ 0xE2
      → pdu.cmd_ex ≡ 2
      → pdu.block ≡ some (text ++ back)
      → pdu.data_len ≡ pos n
      → length text ≡ n
      → 1 < n
      → s.malloc (n + 1) w ≡ (true, w1)
      → process_protocol_pdu s dir handle pdu true w ≡ (do
        (done, w2) ← s.file_upload_open dir (c_string text) w1
        send_reply_to_client s handle 0xE2 2 (status done ∷ []) w2)
  unfolding process_protocol_pdu process_protocol_pdu_after_login process_protocol_upload_file
      process_protocol_upload_file_cmd_ex_02
  process_protocol_pdu-open dir handle pdu text back n w w1 ec ex eb el sized long got =
      let more : ltb_ℤ (pos 1) (pos n) ≡ true = ground arith in
      let loaded : load n (drop 0 (text ++ back)) ≡ ok text =
        load_fits n (text ++ back) (omega (arith, sized, length-append {0} text back))
        ∙ ap ok (take-append_left text back n (sym sized)) in
      let copied : copy_string s 0 n (some (text ++ back)) w ≡ ok (c_string text, w1) =
        copy_string_lem s 0 n (text ++ back) w w1 got loaded in
      rw (ec, ex, eb, el, more, copied)
        (elim (Run-cases (s.file_upload_open dir (c_string text) w1)) [
          | inl e ↦ rw e
          | inr (r, e) ↦ rw e
        ])

  -- The end of an upload for a client that is logged in, with OK and a sum behind it: the text up to
  -- the first NUL is checked, and the outcome is sent back.
  pub process_protocol_pdu-finish :
      (dir : Option Bytes) (handle : ℤ) (pdu : Pdu) (text back : Bytes) (n : ℕ) (w w1 : W)
      → pdu.cmd ≡ 0xE2
      → pdu.cmd_ex ≡ 4
      → pdu.block ≡ some (0xFE ∷ (text ++ back))
      → pdu.data_len ≡ pos (1 + n)
      → length text ≡ n
      → 0 < n
      → s.malloc (n + 1) w ≡ (true, w1)
      → process_protocol_pdu s dir handle pdu true w ≡ (do
        (done, w2) ← s.file_upload_single_finish (c_string text) w1
        send_reply_to_client s handle 0xE2 4 (status done ∷ []) w2)
  unfolding process_protocol_pdu process_protocol_pdu_after_login process_protocol_upload_file
      process_protocol_upload_file_cmd_ex_04
  process_protocol_pdu-finish dir handle pdu text back n w w1 ec ex eb el sized some_text got =
      let more : ltb_ℤ (pos 1) (pos (1 + n)) ≡ true = ground arith in
      let counted : 1 + n - 1 ≡ n = omega arith in
      let loaded : load n (drop 1 (0xFE ∷ (text ++ back))) ≡ ok text =
        load_fits n (text ++ back) (omega (arith, sized, length-append {0} text back))
        ∙ ap ok (take-append_left text back n (sym sized)) in
      let copied : copy_string s 1 n (some (0xFE ∷ (text ++ back))) w ≡ ok (c_string text, w1) =
        copy_string_lem s 1 n (0xFE ∷ (text ++ back)) w w1 got loaded in
      rw (ec, ex, eb, el, more, counted, copied)
        (elim (Run-cases (s.file_upload_single_finish (c_string text) w1)) [
          | inl e ↦ rw e
          | inr (r, e) ↦ rw e
        ])
