-- ===== src/CString/Format.antt =====
-- The formatted output of kernel/lib/string.c: vsnprintf and what it calls.
--
-- The buffer is a function of the offset; `cap` is its size. The argument list is the list of its words
-- of 64 bits, and `text` are the strings in memory. What va_arg finds behind the last argument, and a
-- width or a position that an int does not hold, are not modelled: the one reads as 0, the others do not
-- wrap.
pub mod Bounds
pub mod Digits
mod Tests
use yart_os.Prelude.{
  ℕ, zero, suc, ◌+◌, ◌-◌, ◌*◌, ◌/◌, ◌%◌, ◌^◌, Bool, true, false, ◌&&◌, ◌||◌, not, List, [], ◌∷◌,
  ◌++◌, Option, some, none, if◌then◌else◌, ltb, leb, ◌==◌, update, length, u32_mod, u64_mod, get_or,
}

-- `buf`, `pos`, and whether put_num has stored a digit behind its tmp[32]
pub record Out : Type 0 where
  pub buf : ℕ → ℕ
  pub pos : ℕ
  pub overrun : Bool

-- if ((size_t)pos + 1 < cap) buf[pos++] = c;
abbrev pub emit : (cap c : ℕ) → Out → Out
emit size c o =
    if ltb (o.pos + 1) size then record o { buf = update o.buf o.pos c; pos = o.pos + 1 } else o

-- put_pad, for `n` characters
pub put_pad : (n cap c : ℕ) → Out → Out
put_pad zero size c o = o
put_pad (suc n) size c o = put_pad n size c (
    if ltb (o.pos + 1) size
    then emit size c o
    else if size == 0
    then o
    else record o { buf = update o.buf (size - 1) 0 })

-- put_str
pub put_str : (cap : ℕ) → List ℕ → Out → Out
put_str size [] o = o
put_str size (c ∷ s) o = put_str size s (emit size c o)

-- the character of a digit, in the lower or the upper case
abbrev pub digit : (upper : Bool) → ℕ → ℕ
digit upper d = if ltb d 10 then 48 + d else if upper then 55 + d else 87 + d

-- while (val) { tmp[n++] = digs[val % base]; val /= base; }, the lowest digit first
pub digit_loop : (rounds val base : ℕ) → List ℕ
digit_loop zero v b = []
digit_loop (suc n) v b = if v == 0 then [] else v % b ∷ digit_loop n (v / b) b

-- the digits of a u64, with one 0 for 0
abbrev pub digits : (val base : ℕ) → List ℕ
digits v b = if v == 0 then 0 ∷ [] else digit_loop 64 v b

-- while (n--) { ... buf[pos++] = tmp[n]; }: the last digit comes first
pub put_digits : (cap : ℕ) → (upper : Bool) → List ℕ → Out → Out
put_digits size upper [] o = o
put_digits size upper (d ∷ ds) o = emit size (digit upper d) (put_digits size upper ds o)

-- if (pad == c) put_pad(..., c, fill);
pub fill_with : (c : ℕ) → (cap pad fill : ℕ) → Out → Out
fill_with c size pad fill o = if pad == c then put_pad fill size c o else o

-- if (neg) put_str(..., "-");
pub put_minus : (cap : ℕ) → (neg : Bool) → Out → Out
put_minus size neg o = if neg then put_str size (45 ∷ []) o else o

-- put_num from the digits on
pub put_signed : (cap : ℕ) → (neg upper : Bool) → (ds : List ℕ) → (width pad : ℕ) → Out → Out
put_signed size neg upper ds width pad o =
    let fill = width - (length ds + (if neg then 1 else 0)) in
    put_digits size upper ds
      (fill_with 48 size pad fill (put_minus size neg (fill_with 32 size pad fill o)))

-- put_num
pub put_num : (cap val base : ℕ) → (sign upper : Bool) → (width pad : ℕ) → Out → Out
put_num size v b sign upper width pad o =
    let neg = sign && leb (2 ^ 63) v in
    let ds = digits (if neg then u64_mod - v else v) b in
    put_signed size neg upper ds width pad (record o { overrun = o.overrun || ltb 32 (length ds) })

-- while (*fmt >= '0' && *fmt <= '9') { width = width * 10 + (*fmt - '0'); fmt++; }
pub width_loop : (width : ℕ) → List ℕ → ℕ × List ℕ
width_loop w [] = (w, [])
width_loop w (c ∷ s) =
    let rest = width_loop (w * 10 + (c - 48)) s in if leb 48 c && leb c 57 then rest else (w, c ∷ s)

-- if (*fmt == c) fmt++;, and whether it was
abbrev pub skip : (c : ℕ) → List ℕ → Bool × List ℕ
skip c [] = (false, [])
skip c (d ∷ s) = if d == c then (true, s) else (false, d ∷ s)

-- what stands between the % and the letter of the conversion
pub record Flags : Type 0 where
  pub pad : ℕ
  pub width : ℕ
  pub long : Bool
  pub rest : List ℕ

abbrev pub flags : List ℕ → Flags
flags s =
    let z = skip 48 s in
    let w = width_loop 0 z.1 in
    let l = skip 108 w.1 in
    let m = if l.0 then (skip 108 l.1).1 else l.1 in
    let k = skip 122 m in
    record { pad = if z.0 then 48 else 32; width = w.0; long = l.0 || k.0; rest = k.1 }

-- (i64)(int)v and (u64)(unsigned)v, as words of 64 bits
abbrev pub as_int : ℕ → ℕ
as_int v = if ltb (v % u32_mod) (2 ^ 31) then v % u32_mod else v % u32_mod + (u64_mod - u32_mod)

abbrev pub as_unsigned : ℕ → ℕ
as_unsigned v = v % u32_mod

-- the string behind a pointer, and "(null)" for NULL
abbrev pub string_at : (text : ℕ → List ℕ) → ℕ → List ℕ
string_at text p = if p == 0 then 40 ∷ 110 ∷ 117 ∷ 108 ∷ 108 ∷ 41 ∷ [] else text p

-- the switch, for the letter `c` and the next argument `v`: the output, and whether it took the argument
abbrev pub conversion : (cap : ℕ) → (text : ℕ → List ℕ) → Flags → (c v : ℕ) → Out → Out × Bool
conversion size text f c v o =
    if c == 99
    then (emit size (v % 256) o, true)
    else if c == 115
    then (put_str size (string_at text v) o, true)
    else if c == 100 || c == 105
    then (put_num size (if f.long then v else as_int v) 10 true false f.width f.pad o, true)
    else if c == 117
    then (put_num size (if f.long then v else as_unsigned v) 10 false false f.width f.pad o, true)
    else if c == 120
    then (put_num size (if f.long then v else as_unsigned v) 16 false false f.width f.pad o, true)
    else if c == 88
    then (put_num size (if f.long then v else as_unsigned v) 16 false true f.width f.pad o, true)
    else if c == 112
    then (put_num size v 16 false false 16 48 (put_str size (48 ∷ 120 ∷ []) o), true)
    else if c == 37
    then (emit size 37 o, false)
    else (emit size c (emit size 37 o), false)

abbrev pub head_arg : List ℕ → ℕ
head_arg [] = 0
head_arg (v ∷ vs) = v % u64_mod

abbrev pub tail_args : List ℕ → List ℕ
tail_args [] = []
tail_args (v ∷ vs) = vs

-- the loop of vsnprintf. `none` is a format that ends inside a conversion: the loop goes on behind its
-- NUL.
pub format_loop : (rounds cap : ℕ) → (text : ℕ → List ℕ) → (fmt args : List ℕ) → Out → Option Out
format_loop zero size text fmt args o = some o
format_loop (suc n) size text [] args o = some o
format_loop (suc n) size text (c ∷ s) args o = elim (c == 37) [
  | false ↦ format_loop n size text s args (emit size c o)
  | true ↦ elim (flags s).rest [
    | [] ↦ none
    | d ∷ r ↦
        let out = conversion size text (flags s) d (head_arg args) o in
        format_loop n size text r (if out.1 then tail_args args else args) out.0
  ]
]

-- if (cap) buf[pos < (int)cap ? pos : (int)cap - 1] = 0;, where a negative offset is counted from 2^64
abbrev pub terminate : (cap : ℕ) → Out → Out
terminate size o =
    let c = as_int size in
    if size == 0 then o else record o {
      buf =
          update o.buf
            (if ltb c (2 ^ 63) && ltb o.pos c then o.pos else (c + u64_mod - 1) % u64_mod) 0;
    }

abbrev pub terminated : (cap : ℕ) → Option Out → Option Out
terminated size none = none
terminated size (some o) = some (terminate size o)

-- vsnprintf: the buffer and the result, `pos`
pub vsnprintf : (cap : ℕ) → (text : ℕ → List ℕ) → (fmt args : List ℕ) → (buf : ℕ → ℕ) → Option Out
vsnprintf size text fmt args buf =
    terminated size
      (format_loop (length fmt) size text fmt args (record { buf = buf; pos = 0; overrun = false }))
