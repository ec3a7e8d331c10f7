-- ===== src/Adapter/Reply.antt =====
-- What the clients are sent back.
use ccc_upgrade.Base.{
  ℕ, zero, ◌+◌, ◌/◌, ◌%◌, ◌^◌, ◌≤◌, ◌<◌, ◌≡◌, refl, sym, ap, ◌∙◌, ◌≢◌, ◌⊎◌, inl, inr, Bool, true,
  false, some, [], ◌∷◌, ◌++◌, append_assoc, arith, leb, le→not_ltb, lt→not_leb, Bool-cases, length,
  take, drop, replicate, length-append, length-replicate, length-take, length-drop,
  take-append-drop, take-append_left, take_all, drop-drop,
}
use ccc_upgrade.Base.Bytes.{
  load_fits, Bytes, Run, ok, ◌>>=◌, store, load, c_string, store-append, Run-cases,
}
use ccc_upgrade.Base.Int.{ℤ, pos, ltb_ℤ}
use ccc_upgrade.Protocol.{Pdu, create_protocol_packet}
use ccc_upgrade.Protocol.Frame.{frame}
use ccc_upgrade.Protocol.Create.{create_protocol_packet-frame, length-frame}
use ccc_upgrade.Packet.{Packet}
use ccc_upgrade.Configure.{password, check_login, check_login_iff}
use ccc_upgrade.Services.{Services}
use ccc_upgrade.Answers.{
  append_data, send_reply, send_reply_to_client, send_one_ip, send_reply_to_udp,
}
use ccc_upgrade.Adapter.{copy_string, process_protocol_client_login}

-- Two bytes of length, high byte first, and the data.
abbrev pub field : Bytes → Bytes
field data_ = (length data_ / 2 ^ 8 % 256) ∷ (length data_ % 256) ∷ data_

-- `append_data` behind `front`, where a field and at most 1024 bytes of data fit.
append_data-field :
    (front data_ back : Bytes)
    → length data_ ≤ 1024
    → length data_ + 2 ≤ length back
    → append_data (length front) data_ (front ++ back)
      ≡ ok (length data_ + 2, front ++ (field data_ ++ drop (length data_ + 2) back))
unfolding append_data
append_data-field front data_ back h fits =
    let n : ℕ = length data_ in
    let two : Bytes = (n / 2 ^ 8 % 256) ∷ (n % 256) ∷ [] in
    let back2 : Bytes = drop 2 back in
    let back' : Bytes = drop n back2 in
    let first : store (length front) two (front ++ back) ≡ ok (front ++ (two ++ back2)) =
      ap (λ b. store (length front) two (front ++ b)) (sym (take-append-drop 2 back))
      ∙ store-append (length front) front (take 2 back) back2 two refl
          (omega (arith, length-take {0} 2 back)) in
    let regroup : front ++ (two ++ back2) ≡ (front ++ two) ++ (take n back2 ++ back') =
      sym (append_assoc front two back2)
      ∙ ap (λ b. (front ++ two) ++ b) (sym (take-append-drop n back2)) in
    let second : store (length front + 2) data_ (front ++ (two ++ back2))
        ≡ ok (front ++ (field data_ ++ drop (n + 2) back)) =
      ap (store (length front + 2) data_) regroup
      ∙ store-append (length front + 2) (front ++ two) (take n back2) back' data_
          (omega (arith, length-append {0} front two))
          (omega (arith, length-take {0} n back2, length-drop {0} 2 back))
      ∙ ap ok (append_assoc front two (data_ ++ back'))
      ∙ ap (λ b. ok (front ++ (two ++ (data_ ++ b))))
          (drop-drop 2 n back ∙ ap (λ k. drop k back) {x = 2 + n} {y = n + 2} (omega arith)) in
    rw (le→not_ltb 1024 n h, first, second)

module _ {W : Type 0} (s : Services W) where
  -- A reply of at most 4087 bytes of data, for a packet from the pool whose buffer has 4096 bytes or
  -- more: the frame of the command and the data is sent, once, and the packet is given back to the
  -- pool behind that. The result is that of the sending.
  pub send_reply-frame :
      (send : Bytes → W → Run (Bool × W)) (cmd cmd_ex : ℕ) (data_ out : Bytes) (p : Packet)
      (w w1 : W)
      → s.packet_pool_get_buffer (pos 4096) w ≡ ok (some p, w1)
      → p.buffer ≡ some out
      → 4096 ≤ length out
      → length data_ ≤ 4087
      → send_reply s send cmd cmd_ex data_ w ≡ (do
        (result, w2) ← send (frame cmd cmd_ex data_) w1
        (_, w3) ←
            s.packet_pool_set
              (record p { buffer = some (frame cmd cmd_ex data_ ++ drop (length data_ + 9) out) })
              w2
        ok (result, w3))
  unfolding send_reply
  send_reply-frame send cmd cmd_ex data_ out p w w1 got hp room small =
      let size : ℕ = length data_ + 9 in
      let sent : Bytes = frame cmd cmd_ex data_ in
      let sized : length sent ≡ size = length-frame cmd cmd_ex data_ ∙ omega arith in
      let created : create_protocol_packet cmd cmd_ex (some data_) (length data_) (some out) 4096
          ≡ ok (size, some (sent ++ drop size out)) =
        create_protocol_packet-frame cmd cmd_ex (length data_) 4096 data_ out (omega arith)
          (omega arith) (omega arith) (omega arith)
        ∙ ap (λ d. ok (size, some (frame cmd cmd_ex d ++ drop size out)))
            (take_all data_ (length data_) (omega arith)) in
      let view : load size (sent ++ drop size out) ≡ ok sent =
        load_fits size (sent ++ drop size out)
          (omega (arith, sized, length-append {0} sent (drop size out)))
        ∙ ap ok (take-append_left sent (drop size out) size (sym sized)) in
      let some_sent : leb size 0 ≡ false = lt→not_leb size 0 (omega arith) in
      rw (got, hp, created, some_sent, view)
        (elim (Run-cases (send sent w1)) [ inl e ↦ rw e | inr (r, e) ↦ rw e ])

  pub copy_string_lem :
      (skip n : ℕ) (block : Bytes) {bytes : Bytes} (w w1 : W)
      → s.malloc (n + 1) w ≡ (true, w1)
      → load n (drop skip block) ≡ ok bytes
      → copy_string s skip n (some block) w ≡ ok (c_string bytes, w1)
  unfolding copy_string
  copy_string_lem skip n block w w1 got loaded = rw (got, loaded)

  -- The answer to a login of two bytes or more, where `malloc` delivers: the text up to the first
  -- NUL is the password, the connection is logged in and then OK is sent; or it is not, and an
  -- error is sent in the state that `malloc` has left.
  pub client_login-answer :
      (handle : ℤ) (pdu : Pdu) (block : Bytes) (n : ℕ) (w w1 : W)
      → pdu.block ≡ some block
      → pdu.data_len ≡ pos n
      → 1 < n
      → n ≤ length block
      → s.malloc (n + 1) w ≡ (true, w1)
      → ((c_string (take n block) ≡ password)
          × (process_protocol_client_login s handle pdu w ≡ (do
            (_, w2) ← s.network_manager_client_set_login handle w1
            send_reply_to_client s handle 0xE1 1 (0xFE ∷ []) w2)))
        ⊎ ((c_string (take n block) ≢ password)
            × (process_protocol_client_login s handle pdu w
                ≡ send_reply_to_client s handle 0xE1 1 (0xFF ∷ []) w1))
  unfolding process_protocol_client_login
  client_login-answer handle pdu block n w w1 eb el long fits got =
      let text : Bytes = c_string (take n block) in
      let more : ltb_ℤ (pos 1) (pos n) ≡ true = ground arith in
      let copied : copy_string s 0 n (some block) w ≡ ok (text, w1) =
        copy_string_lem 0 n block w w1 got (load_fits n block fits) in
      elim (Bool-cases (check_login text)) [
        | inl right ↦ inl (
          (check_login_iff text).0 right,
          rw (el, eb, more, copied, right)
              (elim (Run-cases (s.network_manager_client_set_login handle w1)) [
                | inl e ↦ rw e
                | inr (r, e) ↦ rw e
              ]),
        )
        | inr wrong ↦
            inr ((λ e. cc (wrong, (check_login_iff text).1 e)), rw (el, eb, more, copied, wrong))
      ]

  -- For a running interface the answer to a discovery carries its address and the host's name, each
  -- behind its length, if they have at most 1024 and 1020 bytes.
  pub send_one_ip-fields :
      (handle : ℤ) (hostname ipaddr : Bytes) (w : W)
      → length ipaddr ≤ 1024
      → length hostname ≤ 1020
      → send_one_ip s handle hostname ipaddr w
        ≡ (do (_, w1) ← send_reply_to_udp s handle 0xE0 1 (field ipaddr ++ field hostname) w; ok w1)
  unfolding send_one_ip
  send_one_ip-fields handle hostname ipaddr w ha hn =
      let zeros : Bytes = replicate 2048 0 in
      let room : length zeros ≡ 2048 = length-replicate {0} 2048 zero in
      let back : Bytes = drop (length ipaddr + 2) zeros in
      let back' : Bytes = drop (length hostname + 2) back in
      let first : append_data 0 ipaddr zeros ≡ ok (length ipaddr + 2, field ipaddr ++ back) =
        append_data-field [] ipaddr zeros ha (omega (arith, room)) in
      let sized : length ipaddr + 2 ≡ length (field ipaddr) = omega arith in
      let second : append_data (length ipaddr + 2) hostname (field ipaddr ++ back)
          ≡ ok (length hostname + 2, field ipaddr ++ (field hostname ++ back')) =
        ap (λ k. append_data k hostname (field ipaddr ++ back)) sized
        ∙ append_data-field (field ipaddr) hostname back (omega arith)
            (omega (arith, room, length-drop {0} (length ipaddr + 2) zeros)) in
      let whole : Bytes = (field ipaddr ++ field hostname) ++ back' in
      let total : ℕ = (length ipaddr + 2) + (length hostname + 2) in
      let covered : total ≡ length (field ipaddr ++ field hostname) =
        omega (arith, length-append {0} (field ipaddr) (field hostname)) in
      let view : load total (field ipaddr ++ (field hostname ++ back'))
          ≡ ok (field ipaddr ++ field hostname) =
        ap (load total) (sym (append_assoc (field ipaddr) (field hostname) back'))
        ∙ load_fits total whole
            (omega (arith, covered, length-append {0} (field ipaddr ++ field hostname) back'))
        ∙ ap ok (take-append_left (field ipaddr ++ field hostname) back' total covered) in
      rw (first, second, view)
