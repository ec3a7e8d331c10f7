-- ===== src/Util/Hosts.antt =====
-- src/utils/util_func.c: get_host_ip_running.
use ccc_upgrade.Base.{
  ℕ, zero, suc, ◌+◌, ◌<◌, ◌≡◌, refl, sym, ap, ◌∙◌, ◌≢◌, Bool, true, false, Option, none, some, List,
  [], ◌∷◌, ◌++◌, arith, ◌==◌, if◌then◌else◌, length, drop, replicate, All, length-replicate,
}
use ccc_upgrade.Base.Bytes.{Bytes, Run, ok, fault, ◌>>=◌, store, c_string, store_fits}
use ccc_upgrade.Services.{Address, Interface, no_address, other_family, inet}

module _ {W : Type 0} (callback : Bytes → W → W) where
  -- The body of the loop: the callback is given the string in `info`.
  pub host_ip : Interface → W → Run W
  host_ip ifa w = elim ifa.ifa_addr [
    | no_address ↦ fault
    | other_family ↦ ok w
    | inet ipaddr ↦
        if ifa.loopback
        then ok w
        else if ifa.running
        then (do info ← store 0 ipaddr (replicate 256 0); ok (callback (c_string info) w))
        else ok w
  ]

  pub host_ips : List Interface → W → Run W
  host_ips [] w = ok w
  host_ips (ifa ∷ list) w = do w ← host_ip ifa w; host_ips list w

-- Without a callback nothing is asked.
pub get_host_ip_running :
    {W : Type 0} → (W → Option (List Interface) × W) → Option (Bytes → W → W) → W → Run (Bool × W)
get_host_ip_running getifaddrs none w = ok (false, w)
get_host_ip_running getifaddrs (some callback) w =
    let (list, w1) = getifaddrs w in
    elim list [
      | none ↦ ok (false, w1)
      | some interfaces ↦ do w2 ← host_ips callback interfaces w1; ok (true, w2)
    ]

-- The addresses of the running interfaces that are no loopback.
abbrev address_of : Interface → List Bytes
address_of ifa = elim ifa.ifa_addr [
  | no_address ↦ []
  | other_family ↦ []
  | inet ipaddr ↦ if ifa.loopback then [] else if ifa.running then ipaddr ∷ [] else []
]

abbrev pub addresses : List Interface → List Bytes
addresses [] = []
addresses (ifa ∷ list) = address_of ifa ++ addresses list

abbrev pub call_all : {W : Type 0} → (Bytes → W → W) → List Bytes → W → W
call_all callback [] w = w
call_all callback (b ∷ bs) w = call_all callback bs (callback b w)

-- There is an address, and as a text it is a string of less than 256 bytes.
abbrev pub IsNamed : Interface → Type 0
IsNamed ifa = elim ifa.ifa_addr [
  | no_address ↦ ⊥
  | other_family ↦ Unit {0}
  | inet ipaddr ↦ (length ipaddr < 256) × All (λ b. b ≢ 0) ipaddr
]

c_string-append : (text back : Bytes) → All (λ b. b ≢ 0) text → c_string (text ++ (0 ∷ back)) ≡ text
unfolding c_string
c_string-append [] back h = refl
c_string-append (b ∷ bs) back (h, hs) =
    let some_byte : (b == 0) ≡ false = ground arith in
    rw (c_string, some_byte) (ap (λ t. b ∷ t) (c_string-append bs back hs))

drop_zeros : (n k : ℕ) → n < k → (back : Bytes) × (drop n (replicate k 0) ≡ 0 ∷ back)
drop_zeros n zero h = absurd (omega arith)
drop_zeros zero (suc k) h = (replicate k 0, refl)
drop_zeros (suc n) (suc k) h = drop_zeros n k (omega arith)

-- The string that a short text is in a block of zeros.
info_lem :
    (ipaddr : Bytes)
    → length ipaddr < 256
    → All (λ b. b ≢ 0) ipaddr
    → (info : Bytes) × (store 0 ipaddr (replicate 256 0) ≡ ok info) × (c_string info ≡ ipaddr)
info_lem ipaddr short text =
    let (back, e) = drop_zeros (0 + length ipaddr) 256 (omega (arith, short)) in
    (
      ipaddr ++ drop (0 + length ipaddr) (replicate 256 0),
      store_fits 0 ipaddr (replicate 256 0) (omega (arith, short, length-replicate {0} 256 zero)),
      ap (λ t. c_string (ipaddr ++ t)) e ∙ c_string-append ipaddr back text,
    )

module _ {W : Type 0} (callback : Bytes → W → W) where
  host_ip_lem :
      (a : Address) (loopback running : Bool) (w : W)
      → let ifa : Interface = record { ifa_addr = a; loopback = loopback; running = running } in
        IsNamed ifa → host_ip callback ifa w ≡ ok (call_all callback (address_of ifa) w)
  unfolding host_ip
  host_ip_lem no_address loopback running w named = absurd named
  host_ip_lem other_family loopback running w named = refl
  host_ip_lem (inet ipaddr) true running w named = refl
  host_ip_lem (inet ipaddr) false false w named = refl
  host_ip_lem (inet ipaddr) false true w (short, text) =
      let (info, e, same) = info_lem ipaddr short text in rw (e, same) refl

  call_all-append :
      (xs ys : List Bytes) (w : W)
      → call_all callback (xs ++ ys) w ≡ call_all callback ys (call_all callback xs w)
  call_all-append [] ys w = refl
  call_all-append (x ∷ xs) ys w = call_all-append xs ys (callback x w)

  host_ips_lem :
      (list : List Interface) (w : W)
      → All IsNamed list
      → host_ips callback list w ≡ ok (call_all callback (addresses list) w)
  unfolding host_ips
  host_ips_lem [] w named = refl
  host_ips_lem (ifa ∷ list) w (first_named, named) =
      rw (host_ip_lem ifa.ifa_addr ifa.loopback ifa.running w first_named) (
        host_ips_lem list (call_all callback (address_of ifa) w) named
        ∙ ap ok (sym (call_all-append (address_of ifa) (addresses list) w)))

  -- Where the interfaces can be listed and each has an address, the callback is given the addresses of the
  -- running ones but the loopback, in their order.
  get_host_ip_running_lem :
      (getifaddrs : W → Option (List Interface) × W) (list : List Interface) (w w1 : W)
      → getifaddrs w ≡ (some list, w1)
      → All IsNamed list
      → get_host_ip_running getifaddrs (some callback) w
        ≡ ok (true, call_all callback (addresses list) w1)
  unfolding get_host_ip_running
  get_host_ip_running_lem getifaddrs list w w1 listed named =
      rw (get_host_ip_running, ap (λ r. r.0) listed, host_ips_lem list (getifaddrs w).1 named)
        (ap (λ x. ok (true, call_all callback (addresses list) x)) (ap (λ r. r.1) listed))
