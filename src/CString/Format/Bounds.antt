-- ===== src/CString/Format/Bounds.antt =====
-- vsnprintf of kernel/lib/string.c keeps to its buffer.
use yart_os.Prelude.{
  ℕ, zero, suc, ◌+◌, ◌-◌, ◌%◌, ◌<◌, ◌≤◌, ◌≡◌, ◌≢◌, inl, inr, refl, Bool, true, false, ◌&&◌, ◌||◌,
  List, [], ◌∷◌, Option, some, none, if◌then◌else◌, ltb, leb, ◌==◌, update, length, u64_mod, ◌^◌,
  arith, ◌∙◌, Bool-cases, u32_mod,
}
use yart_os.CString.Format.Digits.{digits-length}
use yart_os.CString.Format.{
  Out, emit, put_pad, put_str, put_digits, put_num, put_signed, put_minus, fill_with, digits, Flags,
  flags, conversion, format_loop, terminate, terminated, vsnprintf, head_arg, tail_args, as_int,
  as_unsigned, string_at,
}

-- The position leaves room for a NUL, nothing behind the buffer has changed, and put_num has kept to
-- its tmp[32].
pub record Within (size : ℕ) (b : ℕ → ℕ) (o : Out) : Type 0 where
  pub room : o.pos < size
  pub kept : o.overrun ≡ false
  pub outside : (i : ℕ) → size ≤ i → o.buf i ≡ b i

either :
    {size : ℕ} {b : ℕ → ℕ} (c : Bool) (x y : Out)
    → Within size b x
    → Within size b y
    → Within size b (if c then x else y)
either true x y h g = h
either false x y h g = g

module _ (size : ℕ) (b : ℕ → ℕ) where
  emit-Within : (c : ℕ) (o : Out) → Within size b o → Within size b (emit size c o)
  emit-Within c o h = elim (Bool-cases (ltb (o.pos + 1) size)) [
    | inl e ↦
        let room : o.pos + 1 < size = ground (arith, e) in
        rw e (record {
          room = room;
          kept = h.kept;
          outside = λ i le. let z : o.pos ≢ i = omega arith in ground (arith, z) ∙ h.outside i le;
        })
    | inr e ↦ rw e h
  ]

  put_pad-Within : (n c : ℕ) (o : Out) → Within size b o → Within size b (put_pad n size c o)
  unfolding put_pad
  put_pad-Within zero c o h = h
  put_pad-Within (suc n) c o h =
      put_pad-Within n c
        (if ltb (o.pos + 1) size
          then emit size c o
          else if size == 0
          then o
          else record o { buf = update o.buf (size - 1) 0 })
        (either (ltb (o.pos + 1) size) (emit size c o)
          (if size == 0 then o else record o { buf = update o.buf (size - 1) 0 })
          (emit-Within c o h)
          (either (size == 0) o (record o { buf = update o.buf (size - 1) 0 }) h
            (record {
              room = h.room;
              kept = h.kept;
              outside = λ i le.
                  let r = h.room in
                  let z : size - 1 ≢ i = omega (arith, r, le) in ground (arith, z) ∙ h.outside i le;
            })))

  put_str-Within : (s : List ℕ) (o : Out) → Within size b o → Within size b (put_str size s o)
  unfolding put_str
  put_str-Within [] o h = h
  put_str-Within (c ∷ s) o h = put_str-Within s (emit size c o) (emit-Within c o h)

  put_digits-Within :
      (upper : Bool) (ds : List ℕ) (o : Out)
      → Within size b o
      → Within size b (put_digits size upper ds o)
  unfolding put_digits
  put_digits-Within upper [] o h = h
  put_digits-Within upper (d ∷ ds) o h =
      emit-Within (if ltb d 10 then 48 + d else if upper then 55 + d else 87 + d)
        (put_digits size upper ds o) (put_digits-Within upper ds o h)

  fill_with-Within :
      (c pad fill : ℕ) (o : Out) → Within size b o → Within size b (fill_with c size pad fill o)
  unfolding fill_with
  fill_with-Within c pad fill o h =
      either (pad == c) (put_pad fill size c o) o (put_pad-Within fill c o h) h

  put_minus-Within : (neg : Bool) (o : Out) → Within size b o → Within size b (put_minus size neg o)
  unfolding put_minus
  put_minus-Within neg o h =
      either neg (put_str size (45 ∷ []) o) o (put_str-Within (45 ∷ []) o h) h

  put_signed-Within :
      (neg upper : Bool) (ds : List ℕ) (width pad : ℕ) (o : Out)
      → Within size b o
      → Within size b (put_signed size neg upper ds width pad o)
  unfolding put_signed
  put_signed-Within neg upper ds width pad o h =
      let fill = width - (length ds + (if neg then 1 else 0)) in
      put_digits-Within upper ds
        (fill_with 48 size pad fill (put_minus size neg (fill_with 32 size pad fill o)))
        (fill_with-Within 48 pad fill (put_minus size neg (fill_with 32 size pad fill o))
          (put_minus-Within neg (fill_with 32 size pad fill o) (fill_with-Within 32 pad fill o h)))

  put_num-Within :
      (v base : ℕ) (sign upper : Bool) (width pad : ℕ) (o : Out)
      → 4 ≤ base
      → v < u64_mod
      → Within size b o
      → Within size b (put_num size v base sign upper width pad o)
  unfolding put_num
  put_num-Within v base sign upper width pad o four lt h =
      let neg = sign && leb (2 ^ 63) v in
      let u = if neg then u64_mod - v else v in
      let small : u < u64_mod = ground (arith, lt) in
      let l = digits-length u base four small in
      put_signed-Within neg upper (digits u base) width pad
        (record o { overrun = o.overrun || ltb 32 (length (digits u base)) })
        (record {
          room = h.room;
          kept = let k = h.kept in ground (arith, l, k);
          outside = h.outside;
        })

  fork :
      (c : Bool) (x y : Out × Bool)
      → Within size b x.0
      → Within size b y.0
      → Within size b (if c then x else y).0
  fork true x y h g = h
  fork false x y h g = g

  conversion-Within :
      (text : ℕ → List ℕ) (f : Flags) (c v : ℕ) (o : Out)
      → v < u64_mod
      → Within size b o
      → Within size b (conversion size text f c v o).0
  conversion-Within text f c v o lt h =
      let word = if f.long then v else as_unsigned v in
      let int = if f.long then v else as_int v in
      let w : word < u64_mod = ground (arith, lt) in
      let i : int < u64_mod = ground (arith, lt) in
      let ten : 4 ≤ 10 = omega arith in
      let hex : 4 ≤ 16 = omega arith in
      fork (c == 99) _ _ (emit-Within (v % 256) o h) (
        fork (c == 115) _ _ (put_str-Within (string_at text v) o h) (
          fork (c == 100 || c == 105) _ _ (put_num-Within int 10 true false f.width f.pad o ten i h)
            (fork (c == 117) _ _ (put_num-Within word 10 false false f.width f.pad o ten w h) (
              fork (c == 120) _ _ (put_num-Within word 16 false false f.width f.pad o hex w h) (
                fork (c == 88) _ _ (put_num-Within word 16 false true f.width f.pad o hex w h) (
                  fork (c == 112) _ _
                    (put_num-Within v 16 false false 16 48 (put_str size (48 ∷ 120 ∷ []) o) hex lt
                      (put_str-Within (48 ∷ 120 ∷ []) o h))
                    (fork (c == 37) _ _ (emit-Within 37 o h)
                      (emit-Within c (emit size 37 o) (emit-Within 37 o h)))))))))

-- What a call of the loop or of vsnprintf leaves behind: nothing, where the format ends inside a
-- conversion, or an output with a property.
pub data Leaves (P : Out → Type 0) : Option Out → Type 0 where
  lost : Leaves P none
  left : (o : Out) → P o → Leaves P (some o)

by_case :
    {P : Out → Type 0} (c : Bool) (x y : Option Out)
    → Leaves P x
    → Leaves P y
    → Leaves P (elim c [ false ↦ x | true ↦ y ])
by_case false x y h g = h
by_case true x y h g = g

by_rest :
    {P : Out → Type 0} (s : List ℕ) (f : ℕ → List ℕ → Option Out)
    → ((d : ℕ) (r : List ℕ) → Leaves P (f d r))
    → Leaves P (elim s [ [] ↦ none | d ∷ r ↦ f d r ])
by_rest [] f h = lost
by_rest (d ∷ r) f h = h d r

head_arg-lt : (args : List ℕ) → head_arg args < u64_mod
head_arg-lt [] = omega arith
head_arg-lt (v ∷ vs) = omega arith

format_loop-Leaves :
    (n size : ℕ) (b : ℕ → ℕ) (text : ℕ → List ℕ) (fmt args : List ℕ) (o : Out)
    → Within size b o
    → Leaves (Within size b) (format_loop n size text fmt args o)
unfolding format_loop
format_loop-Leaves zero size b text fmt args o h = left o h
format_loop-Leaves (suc n) size b text [] args o h = left o h
format_loop-Leaves (suc n) size b text (c ∷ s) args o h =
    let out : ℕ → Out × Bool = λ d. conversion size text (flags s) d (head_arg args) o in
    let next : ℕ → List ℕ → Option Out =
      λ d r. format_loop n size text r (if (out d).1 then tail_args args else args) (out d).0 in
    by_case (c == 37) (format_loop n size text s args (emit size c o))
      (elim (flags s).rest [ [] ↦ none | d ∷ r ↦ next d r ])
      (format_loop-Leaves n size b text s args (emit size c o) (emit-Within size b c o h))
      (by_rest (flags s).rest next (λ d r.
        format_loop-Leaves n size b text r (if (out d).1 then tail_args args else args) (out d).0
          (conversion-Within size b text (flags s) d (head_arg args) o (head_arg-lt args) h)))

-- the result of vsnprintf: a string that ends inside the buffer
pub record IsPrinted (size : ℕ) (b : ℕ → ℕ) (o : Out) : Type 0 where
  pub inside : o.pos < size
  pub ends : o.buf o.pos ≡ 0
  pub outside : (i : ℕ) → size ≤ i → o.buf i ≡ b i
  pub kept : o.overrun ≡ false

terminate-IsPrinted :
    (size : ℕ) (b : ℕ → ℕ) (o : Out)
    → size < 2 ^ 31
    → Within size b o
    → IsPrinted size b (terminate size o)
terminate-IsPrinted size b o small h =
    let r = h.room in
    let e : as_int size ≡ size =
      let q : size % u32_mod ≡ size = omega (arith, small) in ground (arith, q, small) in
    let at : ltb (as_int size) (2 ^ 63) && ltb o.pos (as_int size) ≡ true =
      ground (arith, e, small, r) in
    let z : size ≢ 0 = omega (arith, r) in
    record {
      inside = ground (arith, z, r);
      ends = rw at (ground (arith, z));
      kept = let k = h.kept in ground (arith, z, k);
      outside = λ i le.
          let k : o.pos ≢ i = omega (arith, r, le) in rw at (ground (arith, z, k)) ∙ h.outside i le;
    }

terminated-Leaves :
    (size : ℕ) (b : ℕ → ℕ) (o : Option Out)
    → size < 2 ^ 31
    → Leaves (Within size b) o
    → Leaves (IsPrinted size b) (terminated size o)
terminated-Leaves size b none small h = lost
terminated-Leaves size b (some o) small (left p h) =
    left (terminate size o) (terminate-IsPrinted size b o small h)

-- For a buffer of at least one byte and fewer than 2 ^ 31, any format and any arguments: vsnprintf either
-- runs behind a format that ends inside a conversion, or it changes no byte behind the buffer, its result
-- is a position in the buffer, there it has put a NUL, and no number it printed ran over put_num's
-- tmp[32].
pub vsnprintf-IsPrinted :
    (size : ℕ) (text : ℕ → List ℕ) (fmt args : List ℕ) (b : ℕ → ℕ)
    → 0 < size
    → size < 2 ^ 31
    → Leaves (IsPrinted size b) (vsnprintf size text fmt args b)
unfolding vsnprintf
vsnprintf-IsPrinted size text fmt args b lt small =
    terminated-Leaves size b
      (format_loop (length fmt) size text fmt args (record { buf = b; pos = 0; overrun = false }))
      small
      (format_loop-Leaves (length fmt) size b text fmt args
        (record { buf = b; pos = 0; overrun = false })
        (record { room = lt; kept = refl; outside = λ i le. refl }))
