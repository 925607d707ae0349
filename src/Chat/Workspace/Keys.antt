-- ===== src/Chat/Workspace/Keys.antt =====
-- The registry's keys tell sessions apart.
use Prim.Native.Char.{Char, code}
use Prim.Native.String
use Prim.Native.String.{char_at}
use text.Mathlib.TextLemmas.{cons-eq-cons, cons-append, nil-append}
use excelsior.Common.{◌≡◌, refl, sym, ap, ◌∙◌, String, ◌==◌, Bool, false, ◌||◌, arith}
use excelsior.Chat.Workspace.{Platform, canonical_workspace, session_key}

-- The text holds the byte 0.
abbrev pub has_nul : String → Bool
has_nul String.[] = false
has_nul (String.◌∷◌ c s) = (code c == 0) || has_nul s

abbrev nul : Char
nul = char_at "\0" 0

nul_cons : (s : String) → String.◌++◌ "\0" s ≡ String.◌∷◌ nul s
nul_cons s = cons-append nul String.[] s ∙ ap (String.◌∷◌ nul) (nil-append s)

clash : (c : Char) (s : String) → has_nul (String.◌∷◌ c s) ≡ false → nul ≡ c → ⊥
clash c s h e = ground (arith, ap code e)

split_unique :
    (a b x y : String)
    → has_nul a ≡ false
    → has_nul b ≡ false
    → String.◌++◌ a (String.◌∷◌ nul x) ≡ String.◌++◌ b (String.◌∷◌ nul y)
    → (a ≡ b) × (x ≡ y)
split_unique String.[] String.[] x y ha hb e =
    (refl, (cons-eq-cons.0 (sym (nil-append _) ∙ e ∙ nil-append _)).1)
split_unique String.[] (String.◌∷◌ c b) x y ha hb e =
    absurd (clash c b hb (cons-eq-cons.0 (sym (nil-append _) ∙ e ∙ cons-append c b _)).0)
split_unique (String.◌∷◌ c a) String.[] x y ha hb e =
    absurd (clash c a ha (cons-eq-cons.0 (sym (nil-append _) ∙ sym e ∙ cons-append c a _)).0)
split_unique (String.◌∷◌ c a) (String.◌∷◌ d b) x y ha hb e =
    let (head, tail) = cons-eq-cons.0 (sym (cons-append c a _) ∙ e ∙ cons-append d b _) in
    let (same, rest) = split_unique a b x y (ground arith) (ground arith) tail in
    (cons-eq-cons.1 (head, same), rest)

-- Where canonical paths hold no byte 0, two sessions have one key only if their canonical
-- workspaces and their identifiers agree, whatever bytes the identifiers hold.
pub session_key_unique :
    (p : Platform) (ws ws' id id' : String)
    → has_nul (canonical_workspace p ws) ≡ false
    → has_nul (canonical_workspace p ws') ≡ false
    → session_key p ws id ≡ session_key p ws' id'
    → (canonical_workspace p ws ≡ canonical_workspace p ws') × (id ≡ id')
unfolding session_key
session_key_unique p ws ws' id id' h h' e =
    split_unique (canonical_workspace p ws) (canonical_workspace p ws') id id' h h' (
      ap (String.◌++◌ (canonical_workspace p ws)) (sym (nul_cons id))
      ∙ e
      ∙ ap (String.◌++◌ (canonical_workspace p ws')) (nul_cons id'))
