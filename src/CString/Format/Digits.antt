-- ===== src/CString/Format/Digits.antt =====
-- The numbers that put_num of kernel/lib/string.c prints are read back.
use yart_os.Prelude.{
  ℕ, zero, suc, ◌+◌, ◌-◌, ◌*◌, ◌/◌, ◌%◌, ◌^◌, ◌<◌, ◌≤◌, ◌≡◌, ◌≢◌, refl, false, List, [], ◌∷◌,
  if◌then◌else◌, ltb, ◌==◌, update, length, u64_mod, arith, sym, ◌∙◌, ap, subst, Bool-cases, inl,
  inr, ◌||◌,
}
use native.Mathlib.Nat.{div-add-mod, mod-lt, mul-le-mul_right, pow-suc}
use yart_os.CString.Format.{
  Out, emit, digit, digit_loop, digits, put_digits, put_num, put_signed, put_minus, fill_with,
  put_pad,
}

-- the number that digits stand for, the lowest first
abbrev pub number : (base : ℕ) → List ℕ → ℕ
number b [] = 0
number b (d ∷ ds) = d + b * number b ds

abbrev AreDigits : (base : ℕ) → List ℕ → Type 0
AreDigits b [] = Unit {0}
AreDigits b (d ∷ ds) = (d < b) × AreDigits b ds

half : (n v b : ℕ) → 2 ≤ b → v < 2 ^ suc n → v / b < 2 ^ n
half n v b two lt =
    let e : b * (v / b) + v % b ≡ v = div-add-mod v b in
    let l : 2 * (v / b) ≤ b * (v / b) = mul-le-mul_right (v / b) two in
    omega (arith, e, l, lt, pow-suc 2 n)

digit_loop-number :
    (n v b : ℕ)
    → 2 ≤ b
    → v < 2 ^ n
    → (number b (digit_loop n v b) ≡ v)
      × AreDigits b (digit_loop n v b)
      × (length (digit_loop n v b) ≤ n)
unfolding digit_loop
digit_loop-number zero v b two lt = ((omega (arith, lt)), tt, omega arith)
digit_loop-number (suc n) v b two lt = elim (Bool-cases (v == 0)) [
  | inl e ↦ rw e (ground (arith, e), tt, omega arith)
  | inr e ↦
      let (q, ds, l) = digit_loop-number n (v / b) b two (half n v b two lt) in
      rw e (
        omega (arith, ap (λ k. b * k) q, div-add-mod v b),
        (mod-lt v (omega (arith, two)), ds),
        omega (arith, l),
      )
]

quarter : (k v b : ℕ) → 4 ≤ b → v < 4 ^ suc k → v / b < 4 ^ k
quarter k v b four lt =
    let e : b * (v / b) + v % b ≡ v = div-add-mod v b in
    let l : 4 * (v / b) ≤ b * (v / b) = mul-le-mul_right (v / b) four in
    omega (arith, e, l, lt, pow-suc 4 k)

-- In a base from 4 on, a number below 4 ^ k has at most k digits.
digit_loop-length : (n k v b : ℕ) → 4 ≤ b → v < 4 ^ k → length (digit_loop n v b) ≤ k
unfolding digit_loop
digit_loop-length zero k v b four lt = omega arith
digit_loop-length (suc n) zero v b four lt = ground arith
digit_loop-length (suc n) (suc k) v b four lt = elim (Bool-cases (v == 0)) [
  | inl e ↦ rw e (omega arith)
  | inr e ↦
      let h = digit_loop-length n k (v / b) b four (quarter k v b four lt) in
      rw e (omega (arith, h))
]

-- The digits of 64 bits fit into tmp[32].
pub digits-length : (v b : ℕ) → 4 ≤ b → v < u64_mod → length (digits v b) ≤ 32
digits-length v b four lt = elim (Bool-cases (v == 0)) [
  | inl e ↦ rw e (omega arith)
  | inr e ↦ rw e (digit_loop-length 64 32 v b four (omega (arith, lt)))
]

-- The number of the characters from offset `p` on.
abbrev pub undigit : ℕ → ℕ
undigit c = if ltb c 58 then c - 48 else c - 87

pub read_number : (base : ℕ) → (buf : ℕ → ℕ) → (p n : ℕ) → ℕ
read_number b f p zero = 0
read_number b f p (suc n) = read_number b f p n * b + undigit (f (p + n))

read_number-ext :
    (b : ℕ) (f g : ℕ → ℕ) (p n : ℕ)
    → ((i : ℕ) → i < p + n → f i ≡ g i)
    → read_number b f p n ≡ read_number b g p n
unfolding read_number
read_number-ext b f g p zero h = refl
read_number-ext b f g p (suc n) h =
    let e : f (p + n) ≡ g (p + n) = h (p + n) (omega arith) in
    let ih = read_number-ext b f g p n (λ i lt. h i (omega arith)) in ground (arith, e, ih)

digit-undigit : (d : ℕ) → d < 16 → undigit (digit false d) ≡ d
digit-undigit d h = ground arith

-- What put_digits writes, where there is room for it.
record Writes (b size : ℕ) (ds : List ℕ) (o u : Out) : Type 0 where
  pos : u.pos ≡ o.pos + length ds
  reads : read_number b u.buf o.pos (length ds) ≡ number b ds
  overrun : u.overrun ≡ o.overrun

put_digits-Writes :
    (b size : ℕ) (ds : List ℕ) (o : Out)
    → b ≤ 16
    → AreDigits b ds
    → o.pos + length ds < size
    → Writes b size ds o (put_digits size false ds o)
unfolding put_digits read_number
put_digits-Writes b size [] o le h lt = record { pos = omega arith; reads = refl; overrun = refl }
put_digits-Writes b size (d ∷ ds) o le (x, h) lt =
    let ih = put_digits-Writes b size ds o le h (omega arith) in
    let w = put_digits size false ds o in
    let p = ih.pos in
    let room : w.pos + 1 < size = omega (arith, p, lt) in
    let u = digit-undigit d (omega (arith, x, le)) in
    let q : emit size (digit false d) w
        ≡ record w { buf = update w.buf w.pos (digit false d); pos = w.pos + 1 } =
      ground (arith, room) in
    let same =
      read_number-ext b (update w.buf w.pos (digit false d)) w.buf o.pos (length ds)
        (λ i l. let z : w.pos ≢ i = omega (arith, p, l) in ground (arith, z)) in
    let here : update w.buf w.pos (digit false d) (o.pos + length ds) ≡ digit false d =
      ground (arith, p) in
    let reads : read_number b (update w.buf w.pos (digit false d)) o.pos (length ds) * b
          + undigit (update w.buf w.pos (digit false d) (o.pos + length ds))
        ≡ d + b * number b ds =
      ap (λ k. k * b + undigit (update w.buf w.pos (digit false d) (o.pos + length ds)))
        (same ∙ ih.reads)
      ∙ ap (λ c. number b ds * b + undigit c) here
      ∙ ap (λ k. number b ds * b + k) u
      ∙ grind arith in
    subst (λ v. Writes b size (d ∷ ds) o v) (sym q)
      (record { pos = omega (arith, p); reads = reads; overrun = ih.overrun })

fill_nothing : (c size pad : ℕ) (o : Out) → fill_with c size pad 0 o ≡ o
unfolding fill_with put_pad
fill_nothing c size pad o = elim (Bool-cases (pad == c)) [ inl e ↦ rw e refl | inr e ↦ rw e refl ]

put_signed-plain :
    (size pad : ℕ) (ds : List ℕ) (o : Out)
    → put_signed size false false ds 0 pad o ≡ put_digits size false ds o
unfolding put_signed put_minus
put_signed-plain size pad ds o =
    let z : 0 - (length ds + 0) ≡ 0 = omega arith in
    ap (λ f. put_digits size false ds (fill_with 48 size pad f (fill_with 32 size pad f o))) z
    ∙ ap (λ u. put_digits size false ds (fill_with 48 size pad 0 u)) (fill_nothing 32 size pad o)
    ∙ ap (put_digits size false ds) (fill_nothing 48 size pad o)

digits-number :
    (v b : ℕ)
    → 2 ≤ b
    → v < u64_mod
    → (number b (digits v b) ≡ v) × AreDigits b (digits v b) × (length (digits v b) ≤ 64)
digits-number v b two lt = elim (Bool-cases (v == 0)) [
  | inl e ↦ rw e (ground (arith, e), (omega (arith, two), tt), omega arith)
  | inr e ↦ rw e (digit_loop-number 64 v b two lt)
]

-- For an unsigned number of 64 bits in a base from 4 to 16, without a width, in lower case, where the
-- buffer has room for 32 characters and a NUL: the characters that put_num writes from the position on are
-- at most 32 and read as the number, and no digit is stored behind tmp[32].
pub put_num-read_number :
    (size v b pad : ℕ) (o : Out)
    → 4 ≤ b
    → b ≤ 16
    → v < u64_mod
    → o.pos + 32 < size
    → ((put_num size v b false false 0 pad o).overrun ≡ o.overrun)
      × ((put_num size v b false false 0 pad o).pos ≤ o.pos + 32)
      × (read_number b
            (put_num size v b false false 0 pad o).buf
            o.pos
            ((put_num size v b false false 0 pad o).pos - o.pos)
          ≡ v)
unfolding put_num
put_num-read_number size v b pad o four le lt room =
    let ds = digits v b in
    let o₁ : Out = record o { overrun = o.overrun || ltb 32 (length ds) } in
    let (e, h, _) = digits-number v b (omega (arith, four)) lt in
    let l = digits-length v b four lt in
    let w = put_digits-Writes b size ds o₁ le h (omega (arith, l, room)) in
    let p = w.pos in
    let n : (put_digits size false ds o₁).pos - o.pos ≡ length ds = omega (arith, p) in
    let fits : o₁.overrun ≡ o.overrun = ground (arith, l) in
    subst
      (λ u.
        (u.overrun ≡ o.overrun)
        × (u.pos ≤ o.pos + 32)
        × (read_number b u.buf o.pos (u.pos - o.pos) ≡ v))
      (sym (put_signed-plain size pad ds o₁))
      (
        w.overrun ∙ fits,
        omega (arith, p, l),
        ap (λ k. read_number b (put_digits size false ds o₁).buf o.pos k) n ∙ w.reads ∙ e,
      )
