-- ===== src/Engine/Token/Plain.antt =====
-- `strings.TrimSpace` takes from a token the line break behind it, and nothing else.
use Prim.Native.Char.{Char}
use Prim.Native.String
use text.Mathlib.TextLemmas.{nil-append, cons-append}
use excelsior.Common.{◌≡◌, refl, sym, ◌∙◌, ap, String, Bool, true, false, if◌then◌else◌, arith}
use excelsior.Util.{is_space, trim_left, trim_right, trim_space}
use excelsior.Session.Id.Safe.{keep_unless_blank-not_space}

-- No character is a space.
unfoldable pub is_plain : String → Bool
is_plain String.[] = true
is_plain (String.◌∷◌ c s) = if is_space c then false else is_plain s

trim_right-newline : trim_right "\n" ≡ ""
unfolding trim_right
trim_right-newline = refl

trim_space-newline : trim_space "\n" ≡ ""
unfolding trim_space
trim_space-newline = refl

-- One step of `trim_right`.
trim_right-visible :
    (c : Char) (s t : String)
    → is_space c ≡ false
    → trim_right s ≡ t
    → trim_right (String.◌∷◌ c s) ≡ String.◌∷◌ c t
unfolding trim_right
trim_right-visible c s t h e = rw e (keep_unless_blank-not_space c t h)

trim_right-plain : (s : String) → is_plain s ≡ true → trim_right (String.◌++◌ s "\n") ≡ s
unfolding is_plain
trim_right-plain String.[] h = ap trim_right (nil-append "\n") ∙ trim_right-newline
trim_right-plain (String.◌∷◌ c s) h =
    ap trim_right (cons-append c s "\n")
    ∙ trim_right-visible c (String.◌++◌ s "\n") s (ground arith) (trim_right-plain s (ground arith))

trim_space-visible :
    (c : Char) (s : String)
    → is_space c ≡ false
    → trim_space (String.◌∷◌ c s) ≡ trim_right (String.◌∷◌ c s)
unfolding trim_space trim_left
trim_space-visible c s h = rw h refl

pub trim_space-plain : (s : String) → is_plain s ≡ true → trim_space (String.◌++◌ s "\n") ≡ s
unfolding is_plain
trim_space-plain String.[] h = ap trim_space (nil-append "\n") ∙ trim_space-newline
trim_space-plain (String.◌∷◌ c s) h =
    ap trim_space (cons-append c s "\n")
    ∙ trim_space-visible c (String.◌++◌ s "\n") (ground arith)
    ∙ sym (ap trim_right (cons-append c s "\n"))
    ∙ trim_right-plain (String.◌∷◌ c s) h
