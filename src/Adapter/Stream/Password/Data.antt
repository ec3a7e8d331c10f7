-- ===== src/Adapter/Stream/Password/Data.antt =====
-- Bytes that do not hold the password are handled the same whatever a login does.
use ccc_upgrade.Base.{
  ℕ, zero, suc, ◌+◌, ◌≡◌, refl, sym, ap, ◌∙◌, inl, inr, Bool, true, false, Option, none, some, [],
  ◌∷◌, ◌++◌, append_assoc, arith, ◌==◌, if◌then◌else◌, Bool-cases, Option-cases, length, take, drop,
  All, length-append, take-append-drop, take-append_left, All-drop,
}
use ccc_upgrade.Base.Bytes.{
  Bytes, IsByte, Run, ok, ◌>>=◌, store, store_at, load, c_string, >>=-eq-ok, Run-cases,
  store_within, store_fits, load_fits, ok_inv,
}
use ccc_upgrade.Base.Int.{ℤ, pos}
use ccc_upgrade.Configure.{password, check_login, check_login_iff}
use ccc_upgrade.Protocol.{Pdu, parse_packet2}
use ccc_upgrade.Protocol.Frame.{frame}
use ccc_upgrade.Protocol.Parse.Sound.{parse_packet2_sound}
use ccc_upgrade.Services.{Services}
use ccc_upgrade.Adapter.Stream.{
  handle_enabled, process_loop, protocol_adapter_process_data, protocol_adapter_process_udp_data,
}
use ccc_upgrade.Adapter.Stream.Password.{
  HoldsPassword, IsWrong, with_login, process_protocol_pdu-with_login,
}

pub HoldsPassword-drop :
    (n : ℕ) (bytes : Bytes) → HoldsPassword (drop n bytes) → HoldsPassword bytes
HoldsPassword-drop n bytes (front, cmd_ex, text, back, e, right) = (
  take n bytes ++ front,
  cmd_ex,
  text,
  back,
  sym (take-append-drop n bytes)
      ∙ ap (λ t. take n bytes ++ t) e
      ∙ sym (append_assoc (take n bytes) front (frame 0xE1 cmd_ex text ++ back)),
  right,
)

wrong_text : (text : Bytes) → ¬ (c_string text ≡ password) → check_login (c_string text) ≡ false
wrong_text text wrong = elim (Bool-cases (check_login (c_string text))) [
  | inl right ↦ absurd (wrong ((check_login_iff (c_string text)).0 right))
  | inr refused ↦ refused
]

-- What has been copied to the front of a block is read there.
load-store_at :
    (src : Bytes) (old : Option Bytes) (block bytes : Bytes)
    → store_at 0 src old ≡ ok (some block)
    → load (length src) block ≡ ok bytes
    → bytes ≡ src
unfolding load store_at store
load-store_at [] old block bytes e l = ok_inv (sym l ∙ load_fits 0 block (omega arith))
load-store_at (x ∷ xs) none block bytes e l = cc
load-store_at (x ∷ xs) (some b) block bytes e l =
    let src : Bytes = x ∷ xs in
    let back : Bytes = drop (0 + length src) b in
    let (block', stored, same) = >>=-eq-ok (store 0 src b) (λ t. ok (some t)) e in
    let room = (store_within 0 src b stored).1 in
    let whole : block ≡ src ++ back = cc same ∙ ok_inv (sym stored ∙ store_fits 0 src b room) in
    ok_inv (
      sym l
      ∙ ap (load (length src)) whole
      ∙ load_fits (length src) (src ++ back) (omega (arith, length-append {0} src back))
      ∙ ap ok (take-append_left src back (length src) refl))

module _ {W : Type 0} (login : ℤ → W → Run (Bool × W)) (s : Services W) (dir : Option Bytes) where
  -- A packet that bytes without the password enable.
  module _ (bytes : Bytes) (all_bytes : All IsByte bytes) (without : ¬ HoldsPassword bytes)
      (pdu : Pdu) where
    parsed-IsWrong :
        {len : ℕ} {pdu' : Pdu}
        → parse_packet2 bytes (record pdu { b_enable = false }) ≡ ok (len, pdu')
        → pdu'.b_enable ≡ true
        → pdu'.cmd ≡ 0xE1
        → IsWrong pdu'
    parsed-IsWrong {pdu' = pdu'} e on is =
        let (front, text, back, split, clean, used, sized, stored) =
          parse_packet2_sound bytes (record pdu { b_enable = false }) all_bytes refl on e in
        let wrong : ¬ (c_string text ≡ password) = λ right. without (
          front,
          pdu'.cmd_ex,
          text,
          back,
          split ∙ ap (λ c. front ++ (frame c pdu'.cmd_ex text ++ back)) is,
          right,
        ) in
        (
          length text,
          sized,
          λ block copy eb l.
              ap (λ t. check_login (c_string t))
                (load-store_at text pdu.block block copy (stored ∙ ap ok eb) l)
              ∙ wrong_text text wrong,
        )

    handle_enabled-with_login :
        (handle : ℤ) (b_login : Bool) (w : W) {len : ℕ} (pdu' : Pdu)
        → parse_packet2 bytes (record pdu { b_enable = false }) ≡ ok (len, pdu')
        → handle_enabled (with_login login s) dir handle pdu' b_login w
          ≡ handle_enabled s dir handle pdu' b_login w
    unfolding handle_enabled
    handle_enabled-with_login handle b_login w pdu' e = elim (Bool-cases pdu'.b_enable) [
      | inr off ↦ rw (handle_enabled, off)
      | inl on ↦
          ap (λ r. if pdu'.b_enable then (r >>= λ x. ok x.1) else ok w)
            (process_protocol_pdu-with_login login s dir handle pdu' b_login w
              (parsed-IsWrong e on))
    ]

  process_loop-with_login :
      (fuel : ℕ) (handle : ℤ) (left : Bytes) (b_login : Bool) (pdu : Pdu) (w : W)
      → All IsByte left
      → ¬ HoldsPassword left
      → process_loop (with_login login s) dir fuel handle left b_login pdu w
        ≡ process_loop s dir fuel handle left b_login pdu w
  unfolding process_loop
  process_loop-with_login zero handle left b_login pdu w all_bytes without = refl
  process_loop-with_login (suc fuel) handle [] b_login pdu w all_bytes without = refl
  process_loop-with_login (suc fuel) handle (b ∷ bs) b_login pdu w all_bytes without =
      elim (Run-cases (parse_packet2 (b ∷ bs) (record pdu { b_enable = false }))) [
        | inl e ↦ rw e
        | inr ((len, pdu'), e) ↦ elim (Bool-cases (len == 0)) [
          | inl z ↦ rw (e, z)
          | inr z ↦
              rw
                (
                  e,
                  z,
                  handle_enabled-with_login (b ∷ bs) all_bytes without pdu handle b_login w pdu' e,
                )
                (elim (Run-cases (handle_enabled s dir handle pdu' b_login w)) [
                  | inl f ↦ rw f
                  | inr (w', f) ↦
                      rw
                        (
                          f,
                          process_loop-with_login fuel handle (drop len (b ∷ bs)) b_login pdu' w'
                              (All-drop IsByte len (b ∷ bs) all_bytes)
                              (λ h. without (HoldsPassword-drop len (b ∷ bs) h)),
                        )
                        refl
                ])
        ]
      ]

  module _ (handle : ℤ) (buffer : Bytes) (w : W) (all_bytes : All IsByte buffer)
      (without : ¬ HoldsPassword buffer) where
    -- Bytes without the password are handled the same whatever the login of a client does.
    pub process_data-with_login :
        (b_login : Bool)
        → protocol_adapter_process_data (with_login login s) dir handle buffer b_login w
          ≡ protocol_adapter_process_data s dir handle buffer b_login w
    unfolding protocol_adapter_process_data
    process_data-with_login b_login = elim (Run-cases (s.packet_pool_get_pdu_buf (pos 4096) w)) [
      | inl e ↦ rw e
      | inr ((packet, w'), e) ↦ elim (Option-cases packet) [
        | inl n ↦ rw (e, n)
        | inr (p, n) ↦
            rw
              (
                e,
                n,
                process_loop-with_login (length buffer) handle buffer b_login p.un_pdu w' all_bytes
                    without,
              )
              refl
      ]
    ]

    -- And so is a datagram without it.
    pub process_udp_data-with_login :
        protocol_adapter_process_udp_data (with_login login s) dir handle buffer w
        ≡ protocol_adapter_process_udp_data s dir handle buffer w
    unfolding protocol_adapter_process_udp_data
    process_udp_data-with_login = elim (Run-cases (s.packet_pool_get_pdu_buf (pos 4096) w)) [
      | inl e ↦ rw e
      | inr ((packet, w'), e) ↦ elim (Option-cases packet) [
        | inl n ↦ rw (e, n)
        | inr (p, n) ↦
            elim (Run-cases (parse_packet2 buffer (record p.un_pdu { b_enable = false }))) [
              | inl f ↦ rw (e, n, f)
              | inr ((len, pdu'), f) ↦
                  rw
                    (
                      e,
                      n,
                      f,
                      handle_enabled-with_login buffer all_bytes without p.un_pdu handle false w'
                          pdu' f,
                    )
                    refl
            ]
      ]
    ]
