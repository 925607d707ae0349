-- ===== src/Tools/Edit/Occurrence.antt =====
-- The text that an edit looks for, and what surrounds it.
use Prim.Native.Char.{Char, code}
use Prim.Native.String
use Prim.Native.String.{count, len}
use mathlib.Core.Option.{some-injective}
use text.Mathlib.TextEquality.{Char-path}
use text.Mathlib.TextLemmas.{nil-append, cons-append, length-cons, cons-ne-nil}
use excelsior.Common.{
  ℕ, suc, ◌≤◌, ◌-◌, ◌≡◌, str_eq, if◌then◌else◌, true, false, refl, sym, ap, ◌∙◌, String, ◌==◌,
  ==_iff, Option, none, some, ◌⊎◌, inl, inr, arith, Bool-cases, Option-cases,
}
use excelsior.Tools.Edit.{
  strip_prefix, count_from, occurrences, replace_first, EditArgs, validate_edit_uniqueness,
}

strip_prefix-append : (p s rest : String) → strip_prefix p s ≡ some rest → s ≡ String.◌++◌ p rest
unfolding strip_prefix
strip_prefix-append String.[] s rest e = ap text_in e ∙ sym (nil-append rest)
  where
    text_in : Option String → String
    text_in none = s
    text_in (some t) = t
strip_prefix-append (String.◌∷◌ c p) String.[] rest e = absurd cc
strip_prefix-append (String.◌∷◌ c p) (String.◌∷◌ d s) rest e =
    elim (Bool-cases (code c == code d)) [
      | inl h ↦
          let tail : strip_prefix p s ≡ some rest = rw h at e in
          ap (λ x. String.◌∷◌ x s) (sym (Char-path c d ((==_iff (code c) (code d)).0 h)))
          ∙ ap (String.◌∷◌ c) (strip_prefix-append p s rest tail)
          ∙ sym (cons-append c p rest)
      | inr h ↦ let gone : none ≡ some rest = rw h at e in absurd cc
    ]

append-strip_prefix : (p rest : String) → strip_prefix p (String.◌++◌ p rest) ≡ some rest
unfolding strip_prefix
append-strip_prefix String.[] rest = ap some (nil-append rest)
append-strip_prefix (String.◌∷◌ c p) rest =
    let same : (code c == code c) ≡ true = ground arith in
    rw (cons-append c p rest, same) (append-strip_prefix p rest)

abbrev pub IsFirst : String → String → String → Type 0
IsFirst old content before =
    (p q : String) → content ≡ String.◌++◌ p (String.◌++◌ old q) → count before ≤ count p

abbrev pub IsAbsent : String → String → Type 0
IsAbsent old s = (p q : String) → ¬ (s ≡ String.◌++◌ p (String.◌++◌ old q))

-- What an occurrence in a text with a first character is.
occurrence_cases :
    (old : String) (c : Char) (s p q : String)
    → String.◌∷◌ c s ≡ String.◌++◌ p (String.◌++◌ old q)
    → (strip_prefix old (String.◌∷◌ c s) ≡ some q)
      ⊎ ((r : String) × (count p ≡ suc (count r)) × (s ≡ String.◌++◌ r (String.◌++◌ old q)))
occurrence_cases old c s String.[] q e =
    inl (ap (strip_prefix old) (e ∙ nil-append _) ∙ append-strip_prefix old q)
occurrence_cases old c s (String.◌∷◌ d p) q e =
    inr (p, length-cons d p, ap tail (e ∙ cons-append d p _))
  where
    tail : String → String
    tail String.[] = String.[]
    tail (String.◌∷◌ x y) = y

count_from-hit :
    (old : String) (size : ℕ) (c : Char) (s after : String)
    → strip_prefix old (String.◌∷◌ c s) ≡ some after
    → count_from old size 0 (String.◌∷◌ c s) ≡ suc (count_from old size size s)
unfolding count_from
count_from-hit old size c s after h = rw (count_from, h) refl

count_from-miss :
    (old : String) (size : ℕ) (c : Char) (s : String)
    → strip_prefix old (String.◌∷◌ c s) ≡ none
    → count_from old size 0 (String.◌∷◌ c s) ≡ count_from old size 0 s
unfolding count_from
count_from-miss old size c s h = rw (count_from, h) refl

strip_prefix-cons :
    (c d : Char) (p s : String)
    → strip_prefix (String.◌∷◌ c p) (String.◌∷◌ d s)
      ≡ (if code c == code d then strip_prefix p s else none)
unfolding strip_prefix
strip_prefix-cons c d p s = refl

-- Behind the skipped characters the count goes on.
count_from-skip :
    (old : String) (size : ℕ) (p s rest : String)
    → strip_prefix p s ≡ some rest
    → count_from old size (count p) s ≡ count_from old size 0 rest
unfolding strip_prefix count_from
count_from-skip old size String.[] s rest e = ap (count_from old size 0) (some-injective s rest e)
count_from-skip old size (String.◌∷◌ c p) String.[] rest e = absurd cc
count_from-skip old size (String.◌∷◌ c p) (String.◌∷◌ d s) rest e =
    elim (Bool-cases (code c == code d)) [
      | inl h ↦
          ap (λ k. count_from old size k (String.◌∷◌ d s)) (length-cons c p)
          ∙ count_from-skip old size p s rest (rw h at e)
      | inr h ↦ let gone : none ≡ some rest = rw h at e in absurd cc
    ]

-- A text in which nothing is counted has no occurrence of a text that is not empty.
count_from-IsAbsent :
    (c : Char) (old : String) (size : ℕ) (s : String)
    → count_from (String.◌∷◌ c old) size 0 s ≡ 0
    → IsAbsent (String.◌∷◌ c old) s
count_from-IsAbsent c old size String.[] e String.[] q h =
    cons-ne-nil c (String.◌++◌ old q) (sym (h ∙ nil-append _ ∙ cons-append c old q))
count_from-IsAbsent c old size String.[] e (String.◌∷◌ d p) q h =
    cons-ne-nil d _ (sym (h ∙ cons-append d p _))
count_from-IsAbsent c old size (String.◌∷◌ d s) e p q h =
    let whole = String.◌∷◌ c old in
    elim (Option-cases (strip_prefix whole (String.◌∷◌ d s))) [
      | inr (rest, g) ↦
          let hit = count_from-hit whole size d s rest g in absurd (omega (arith, hit, e))
      | inl g ↦ elim (occurrence_cases whole d s p q h) [
        | inl found ↦ absurd cc
        | inr (r, n, rest) ↦
            count_from-IsAbsent c old size s (sym (count_from-miss whole size d s g) ∙ e) r q rest
      ]
    ]

-- The text around the first occurrence, and around what replaces it: no occurrence starts earlier,
-- and none stands in what follows. Another one can only overlap the one that is replaced.
abbrev pub Replaces : String → String → String → String → Type 0
Replaces old new content result =
    (before : String) × (after : String) × (content ≡ String.◌++◌ before (String.◌++◌ old after))
    × (result ≡ String.◌++◌ before (String.◌++◌ new after))
    × IsFirst old content before
    × IsAbsent old after

module _ (c : Char) (tail new : String) where
  abbrev old : String
  old = String.◌∷◌ c tail

  -- An occurrence at the start, with nothing counted behind it.
  replace_first-here :
      (d : Char) (s after : String)
      → strip_prefix old (String.◌∷◌ d s) ≡ some after
      → count_from old (count tail) 0 (String.◌∷◌ d s) ≡ 1
      → Replaces old new (String.◌∷◌ d s) (replace_first old new (String.◌∷◌ d s))
  unfolding replace_first
  replace_first-here d s after h e =
      let hit = count_from-hit old (count tail) d s after h in
      let skipped = count_from-skip old (count tail) tail s after (tail_prefix h) in
      (
        "",
        after,
        strip_prefix-append old (String.◌∷◌ d s) after h ∙ sym (nil-append _),
        rw (replace_first, h) (sym (nil-append _)),
        λ p q g. omega arith,
        count_from-IsAbsent c tail (count tail) after (omega (arith, hit, skipped, e)),
      )
    where
      tail_prefix :
          strip_prefix old (String.◌∷◌ d s) ≡ some after → strip_prefix tail s ≡ some after
      tail_prefix h = elim (Bool-cases (code c == code d)) [
        | inl g ↦
            (ap (λ b. if b then strip_prefix tail s else none) (sym g)
              ∙ sym (strip_prefix-cons c d tail s)
              ∙ h)
        | inr g ↦
            let gone : none ≡ some after =
              ap (λ b. if b then strip_prefix tail s else none) (sym g)
              ∙ sym (strip_prefix-cons c d tail s)
              ∙ h in
            absurd cc
      ]

  none_counted : count_from old (count tail) 0 "" ≡ 1 → ⊥
  unfolding count_from
  none_counted e = omega (arith, e)

  -- Where one occurrence is counted, it is replaced.
  replace_first-once :
      (content : String)
      → count_from old (count tail) 0 content ≡ 1
      → Replaces old new content (replace_first old new content)
  unfolding replace_first
  replace_first-once String.[] e = absurd (none_counted e)
  replace_first-once (String.◌∷◌ d s) e = elim (Option-cases (strip_prefix old (String.◌∷◌ d s))) [
    | inr (after, h) ↦ replace_first-here d s after h e
    | inl h ↦
        let (before, after, split, joined, first, absent) =
          replace_first-once s (sym (count_from-miss old (count tail) d s h) ∙ e) in
        (
          String.◌∷◌ d before,
          after,
          ap (String.◌∷◌ d) split ∙ sym (cons-append d before _),
          rw (replace_first, h) (ap (String.◌∷◌ d) joined ∙ sym (cons-append d before _)),
          λ p q g. elim (occurrence_cases old d s p q g) [
            | inl found ↦ absurd cc
            | inr (r, n, rest) ↦ omega (arith, n, length-cons d before, first r q rest)
          ],
          absent,
        )
  ]

-- A content that passes the check has the text, and the first occurrence is replaced.
pub unique-Replaces :
    (content : String) (a : EditArgs)
    → str_eq a.old_text "" ≡ false
    → validate_edit_uniqueness content a ≡ none
    → Replaces a.old_text a.new_text content (replace_first a.old_text a.new_text content)
unfolding validate_edit_uniqueness occurrences
unique-Replaces content a filled e =
    let once : count_from a.old_text (count a.old_text - 1) 0 content ≡ 1 = ground (arith, e) in
    by_text a.old_text filled once
  where
    by_text :
        (old_text : String)
        → str_eq old_text "" ≡ false
        → count_from old_text (count old_text - 1) 0 content ≡ 1
        → Replaces old_text a.new_text content (replace_first old_text a.new_text content)
    by_text String.[] filled once = absurd cc
    by_text (String.◌∷◌ c tail) filled once =
        let size : (count (String.◌∷◌ c tail) - 1) ≡ count tail =
          omega (arith, length-cons c tail) in
        replace_first-once c tail a.new_text content (rw size at once)
