-- ===== src/CString.antt =====
-- kernel/lib/string.c: memory and strings, as functions from an offset or an address to a byte.
pub mod Format
pub mod Memory
pub mod Strings
use yart_os.Prelude.{ℕ, ◌+◌, ◌-◌, ◌&&◌, if◌then◌else◌, ltb, leb}

-- memset(f + p, v, n)
abbrev pub memset : (ℕ → ℕ) → ℕ → ℕ → ℕ → ℕ → ℕ
memset f p v n i = if leb p i && ltb i (p + n) then v else f i

-- memcpy(f + p, g + q, n), from another buffer
abbrev pub memcpy : (ℕ → ℕ) → ℕ → (ℕ → ℕ) → ℕ → ℕ → ℕ → ℕ
memcpy f p g q n i = if leb p i && ltb i (p + n) then g (q + (i - p)) else f i
