-- ===== src/Util.antt =====
-- pkg/util/truncate.go, and the `strings.TrimSpace` that it and its callers use. A text is a list of
-- code points: Go's rune slices, where the source's strings are valid UTF-8.
pub mod Files
pub mod Atomic
use Prim.Native.Char.{Char, code}
use Prim.Native.String
use Prim.Native.String.{count}
use excelsior.Common.{ℕ, zero, suc, String, Bool, ◌&&◌, ◌||◌, ◌==◌, leb, if◌then◌else◌}

-- `unicode.IsSpace`.
unfoldable pub is_space : Char → Bool
is_space ch =
    let c = code ch in
    (leb 9 c && leb c 13)
    || (c == 32)
    || (c == 0x85)
    || (c == 0xa0)
    || (c == 0x1680)
    || (leb 0x2000 c && leb c 0x200a)
    || (c == 0x2028)
    || (c == 0x2029)
    || (c == 0x202f)
    || (c == 0x205f)
    || (c == 0x3000)

unfoldable pub trim_left : String → String
unfolding is_space
trim_left String.[] = String.[]
trim_left (String.◌∷◌ c s) = if is_space c then trim_left s else String.◌∷◌ c s

unfoldable pub keep_unless_blank : Char → String → String
unfolding is_space
keep_unless_blank c String.[] = if is_space c then String.[] else String.◌∷◌ c String.[]
keep_unless_blank c (String.◌∷◌ d t) = String.◌∷◌ c (String.◌∷◌ d t)

-- A trailing space is dropped when nothing but spaces follows it.
unfoldable pub trim_right : String → String
unfolding keep_unless_blank
trim_right String.[] = String.[]
trim_right (String.◌∷◌ c s) = keep_unless_blank c (trim_right s)

-- `strings.TrimSpace`.
unfoldable pub trim_space : String → String
unfolding trim_left trim_right
trim_space s = trim_right (trim_left s)

-- `runes[:n]`.
unfoldable pub take_runes : ℕ → String → String
take_runes zero s = String.[]
take_runes (suc n) String.[] = String.[]
take_runes (suc n) (String.◌∷◌ c s) = String.◌∷◌ c (take_runes n s)

-- `Truncate`.
unfoldable pub truncate : String → ℕ → String
unfolding trim_space take_runes
truncate s n = if leb (count s) n then s else String.◌++◌ (trim_space (take_runes n s)) "…"
