-- ===== src/Net/Ieee80211/Elements.antt =====
-- The element parser of kernel/net/ieee80211.c.
use yart_os.Prelude.{
  ℕ, zero, suc, ◌+◌, ◌-◌, ◌<◌, ◌≤◌, ◌≡◌, ◌⊎◌, refl, inl, inr, Bool, true, false, some, arith, ◌∙◌,
  ap, subst, fun_ext, if◌then◌else◌, ltb, ◌==◌, List, [], ◌∷◌, ◌++◌, length, get_or, length-append,
  Bool-cases,
}
use native.Mathlib.Decide.{dec_lt}
use yart_os.Net.Bytes.{memcpy, at}
use yart_os.Net.Ieee80211.{
  Bss, reset_bss, take_ie, ies_loop, parse_ies, parse_mgmt_body, parse_bss, le16, mgmt_fc,
}

memcpy-ext :
    (f g h : ℕ → ℕ) (n : ℕ) → ((k : ℕ) → k < n → g k ≡ h k) → memcpy f 0 g 0 n ≡ memcpy f 0 h 0 n
memcpy-ext f g h n e = fun_ext (λ i. elim (dec_lt i n) [
  | yes x ↦ let q : 0 + (i - 0) ≡ i = omega arith in ground (arith, ap g q, ap h q, e i x)
  | no x ↦ ground arith
])

-- Only the bytes of an element matter.
take_ie-ext :
    (id n : ℕ) (d e : ℕ → ℕ) (b : Bss)
    → ((k : ℕ) → k < n → d k ≡ e k)
    → take_ie id n d b ≡ take_ie id n e b
unfolding take_ie
take_ie-ext id n d e b h =
    let x = memcpy-ext b.ssid d e (if ltb 32 n then 32 else n) (λ k lt. h k (ground arith)) in
    let y = memcpy-ext b.rates d e (if ltb 8 n then 8 else n) (λ k lt. h k (ground arith)) in
    ground (arith, x, y, h 0, h 8, h 9, h 10, h 11)

ies_loop-ext :
    (r i len : ℕ) (p q : ℕ → ℕ) (b : Bss)
    → ((k : ℕ) → k < len → p k ≡ q k)
    → ies_loop r i p len b ≡ ies_loop r i q len b
unfolding ies_loop
ies_loop-ext zero i len p q b h = refl
ies_loop-ext (suc r) i len p q b h = elim (dec_lt len (i + 2)) [
  | yes x ↦ ground arith
  | no x ↦
      let a : p i ≡ q i = h i (omega arith) in
      let e : p (i + 1) ≡ q (i + 1) = h (i + 1) (omega arith) in
      elim (dec_lt len (i + 2 + q (i + 1))) [
        | yes y ↦ ground (arith, e)
        | no y ↦
            let t =
              take_ie-ext (q i) (q (i + 1)) (at p (i + 2)) (at q (i + 2)) b
                (λ k lt. h (i + 2 + k) (omega arith)) in
            let u =
              ies_loop-ext r (i + 2 + q (i + 1)) len p q
                (take_ie (q i) (q (i + 1)) (at q (i + 2)) b) h in
            let s : ies_loop r (i + 2 + p (i + 1)) p len
                  (take_ie (p i) (p (i + 1)) (at p (i + 2)) b)
                ≡ ies_loop r (i + 2 + q (i + 1)) q len
                    (take_ie (q i) (q (i + 1)) (at q (i + 2)) b) =
              rw (a, e) (ap (λ z. ies_loop r (i + 2 + q (i + 1)) p len z) t ∙ u) in
            ground (arith, e, s)
      ]
]

-- parse_ies reads no byte at or beyond the length that it is given: frames that agree below it are
-- read alike.
pub parse_ies-ext :
    (p q : ℕ → ℕ) (len : ℕ) (b : Bss)
    → ((k : ℕ) → k < len → p k ≡ q k)
    → parse_ies p len b ≡ parse_ies q len b
unfolding parse_ies
parse_ies-ext p q len b h = ies_loop-ext (suc len) 0 len p q b h

-- What a scan result promises about its counts, which index arrays of 33 and 8 bytes.
pub record InArrays (b : Bss) : Type 0 where
  pub ssid_len : b.ssid_len ≤ 32
  pub n_rates : b.n_rates ≤ 8

take_ie-InArrays : (id n : ℕ) (d : ℕ → ℕ) (b : Bss) → InArrays b → InArrays (take_ie id n d b)
unfolding take_ie
take_ie-InArrays id n d b h = record {
  ssid_len = ground (arith, h.ssid_len);
  n_rates = ground (arith, h.n_rates);
}

-- The loop ends within its rounds, in a result whose counts are in their arrays.
ies_loop-total :
    (r i len : ℕ) (p : ℕ → ℕ) (b : Bss)
    → i ≤ len
    → len < r + i
    → InArrays b
    → (x : Bool × Bss) × (ies_loop r i p len b ≡ some x) × InArrays x.1
unfolding ies_loop
ies_loop-total zero i len p b lo h ok = absurd (omega arith)
ies_loop-total (suc r) i len p b lo h ok = elim (dec_lt len (i + 2)) [
  | yes x ↦ ((true, b), ground arith, ok)
  | no x ↦ elim (dec_lt len (i + 2 + p (i + 1))) [
    | yes y ↦ ((false, b), ground arith, ok)
    | no y ↦
        let b' = take_ie (p i) (p (i + 1)) (at p (i + 2)) b in
        let (z, e, k) =
          ies_loop-total r (i + 2 + p (i + 1)) len p b' (omega arith) (omega arith)
            (take_ie-InArrays (p i) (p (i + 1)) (at p (i + 2)) b ok) in
        (z, ground (arith, e), k)
  ]
]

-- On any frame, of any length, whose counts start within their arrays, parse_ies ends, and the counts
-- of the SSID and of the rates stay within their arrays.
pub parse_ies-InArrays :
    (p : ℕ → ℕ) (len : ℕ) (b : Bss)
    → InArrays b
    → (x : Bool × Bss) × (parse_ies p len b ≡ some x) × InArrays x.1
unfolding parse_ies
parse_ies-InArrays p len b ok = ies_loop-total (suc len) 0 len p b (omega arith) (omega arith) ok

-- An element of a frame, and its bytes there.
pub record Element : Type 0 where
  pub id : ℕ
  pub body : List ℕ

abbrev pub encode : List Element → List ℕ
encode [] = []
encode (e ∷ es) = e.id ∷ length e.body ∷ (e.body ++ encode es)

-- the buffer that holds the bytes
abbrev pub buffer : List ℕ → ℕ → ℕ
buffer bytes i = get_or bytes i 0

-- what a scan result is after the elements, in their order
abbrev pub take_all : List Element → Bss → Bss
take_all [] b = b
take_all (e ∷ es) b = take_all es (take_ie e.id (length e.body) (buffer e.body) b)

get_or-append : (xs ys : List ℕ) (k : ℕ) → get_or (xs ++ ys) (length xs + k) 0 ≡ get_or ys k 0
get_or-append [] ys k = let q : 0 + k ≡ k = omega arith in ap (λ i. get_or ys i 0) q
get_or-append (x ∷ xs) ys k =
    let q : suc (length xs) + k ≡ suc (length xs + k) = omega arith in
    ap (λ i. get_or (x ∷ (xs ++ ys)) i 0) q ∙ get_or-append xs ys k

get_or-left : (xs ys : List ℕ) (k : ℕ) → k < length xs → get_or (xs ++ ys) k 0 ≡ get_or xs k 0
get_or-left [] ys k h = absurd (omega arith)
get_or-left (x ∷ xs) ys zero h = refl
get_or-left (x ∷ xs) ys (suc k) h = get_or-left xs ys k (omega arith)

-- The buffer `p` has the elements `es` from offset `i` on.
abbrev Holds : (ℕ → ℕ) → ℕ → List Element → Type 0
Holds p i es = (k : ℕ) → p (i + k) ≡ get_or (encode es) k 0

ies_loop-encode :
    (es : List Element) (r i : ℕ) (p : ℕ → ℕ) (b : Bss)
    → Holds p i es
    → length (encode es) < r
    → ies_loop r i p (i + length (encode es)) b ≡ some (true, take_all es b)
unfolding ies_loop
ies_loop-encode es zero i p b h lt = absurd (omega arith)
ies_loop-encode [] (suc r) i p b h lt = ground arith
ies_loop-encode (e ∷ es) (suc r) i p b h lt =
    let n = length e.body in
    let l = length-append e.body (encode es) in
    let a : p i ≡ e.id = let q : i + 0 ≡ i = omega arith in subst (λ j. p j ≡ e.id) q (h 0) in
    let m : p (i + 1) ≡ n = h 1 in
    let held : Holds p (i + 2 + n) es = λ k.
      let q : i + suc (suc (n + k)) ≡ i + 2 + n + k = omega arith in
      subst (λ j. p j ≡ get_or (encode es) k 0) q
        (h (suc (suc (n + k))) ∙ get_or-append e.body (encode es) k) in
    let t = take_ie-ext e.id n (at p (i + 2)) (buffer e.body) b (λ k x.
      let q : i + suc (suc k) ≡ i + 2 + k = omega arith in
      subst (λ j. p j ≡ get_or e.body k 0) q
        (h (suc (suc k)) ∙ get_or-left e.body (encode es) k x)) in
    let len = i + length (encode (e ∷ es)) in
    let w : i + 2 + n + length (encode es) ≡ len = omega (arith, l) in
    let rest =
      ies_loop-encode es r (i + 2 + n) p (take_ie e.id n (buffer e.body) b) held
        (omega (arith, l)) in
    let s : ies_loop r (i + 2 + p (i + 1)) p len (take_ie (p i) (p (i + 1)) (at p (i + 2)) b)
        ≡ some (true, take_all (e ∷ es) b) =
      rw (a, m, t)
        (subst
          (λ z.
            ies_loop r (i + 2 + n) p z (take_ie e.id n (buffer e.body) b)
            ≡ some (true, take_all (e ∷ es) b))
          w rest) in
    ground (arith, m, l, s)

-- parse_ies reads a list of elements back: on its encoding, each as an id, a length and that many
-- bytes, it succeeds, and takes up each element's own bytes in order.
pub parse_ies-encode :
    (es : List Element) (b : Bss)
    → parse_ies (buffer (encode es)) (length (encode es)) b ≡ some (true, take_all es b)
unfolding parse_ies
parse_ies-encode es b =
    let q : 0 + length (encode es) ≡ length (encode es) = omega arith in
    subst
      (λ n.
        ies_loop (suc (length (encode es))) 0 (buffer (encode es)) n b ≡ some (true, take_all es b))
      q
      (ies_loop-encode es (suc (length (encode es))) 0 (buffer (encode es)) b
        (λ k. let z : 0 + k ≡ k = omega arith in ap (buffer (encode es)) z) (omega arith))

parse_mgmt_body-InArrays :
    (f : ℕ → ℕ) (len fixed : ℕ) (b : Bss)
    → (x : Bool × Bss) × (parse_mgmt_body f len fixed b ≡ some x) × ((x.0 ≡ false) ⊎ InArrays x.1)
unfolding parse_mgmt_body
parse_mgmt_body-InArrays f len fixed b = elim (dec_lt len (24 + fixed)) [
  | yes h ↦ ((false, b), ground arith, inl refl)
  | no h ↦
      let (x, e, k) =
        parse_ies-InArrays (at f (24 + fixed)) (len - 24 - fixed) (reset_bss f b)
          (record { ssid_len = omega arith; n_rates = omega arith }) in
      (x, ground (arith, e), inr k)
]

-- On any frame of any length, wifi_parse_beacon and wifi_parse_probe_resp end, and where they succeed
-- the counts of the SSID and of the rates are at most 32 and 8.
pub parse_bss-InArrays :
    (subtype len : ℕ) (f : ℕ → ℕ) (b : Bss)
    → (x : Bool × Bss) × (parse_bss subtype f len b ≡ some x) × ((x.0 ≡ false) ⊎ InArrays x.1)
unfolding parse_bss
parse_bss-InArrays subtype len f b = elim (dec_lt len 24) [
  | yes h ↦ ((false, b), ground arith, inl refl)
  | no h ↦ elim (Bool-cases (le16 f 0 == mgmt_fc subtype)) [
    | inl e ↦ let (x, q, k) = parse_mgmt_body-InArrays f len 12 b in (x, ground (arith, e, q), k)
    | inr e ↦ ((false, b), ground (arith, e), inl refl)
  ]
]
