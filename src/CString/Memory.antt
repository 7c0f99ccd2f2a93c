-- ===== src/CString/Memory.antt =====
-- memmove and memcmp of kernel/lib/string.c.
--
-- memmove works on one memory, where its two ranges may overlap.
pub mod Move
pub mod Compare
mod Tests
use yart_os.Prelude.{
  ℕ, zero, suc, ◌+◌, ◌-◌, ◌%◌, Bool, true, false, ◌&&◌, ◌||◌, List, [], ◌∷◌, Option, some, none,
  if◌then◌else◌, ltb, ◌==◌, update,
}

-- while (n--) *d++ = *s++;
pub copy_up : (n d s : ℕ) → (ℕ → ℕ) → ℕ → ℕ
copy_up zero d s f = f
copy_up (suc n) d s f = copy_up n (d + 1) (s + 1) (update f d (f s))

-- d += n; s += n; while (n--) *--d = *--s;
pub copy_down : (n d s : ℕ) → (ℕ → ℕ) → ℕ → ℕ
copy_down zero d s f = f
copy_down (suc n) d s f = copy_down n d s (update f (d + n) (f (s + n)))

pub memmove : (d s n : ℕ) → (ℕ → ℕ) → ℕ → ℕ
memmove d s n f =
    if d == s || n == 0 then f else if ltb d s then copy_up n d s f else copy_down n d s f

-- the three signs of a difference of bytes
pub data Sign : Type 0 where
  below : Sign
  equal : Sign
  above : Sign

abbrev pub sign_of : (x y : ℕ) → Sign
sign_of x y = if x == y then equal else if ltb x y then below else above

-- the sign of memcmp's result
pub memcmp : (n : ℕ) → (x y : ℕ → ℕ) → (i : ℕ) → Sign
memcmp zero x y i = equal
memcmp (suc n) x y i =
    let rest = memcmp n x y (i + 1) in if x i == y i then rest else sign_of (x i) (y i)
