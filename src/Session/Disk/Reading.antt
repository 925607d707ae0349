-- ===== src/Session/Disk/Reading.antt =====
-- What `lastRecord` reads from the text of a file.
use Prim.Native.Char.{Char, char, code}
use Prim.Native.String
use text.Mathlib.TextLemmas.{nil-append, append-nil, cons-append, cons-ne-nil}
use excelsior.Common.{
  ◌≡◌, refl, sym, ◌∙◌, ap, String, Bool, false, ◌==◌, ◌||◌, str_eq, eq_iff, List, [], ◌∷◌, ◌++◌,
  Option, none, some, inl, inr, arith, Bool-cases,
}
use excelsior.Util.{is_space, keep_unless_blank, trim_left, trim_right, trim_space}
use excelsior.Session.Types.{Record}
use excelsior.Session.Disk.Lines.{Codec, split_lines, line_record, or_earlier, last_of, last_record}

split_lines-cases : (s : String) → (l : String) × (ls : List String) × (split_lines s ≡ l ∷ ls)
unfolding split_lines
split_lines-cases String.[] = ("", [], refl)
split_lines-cases (String.◌∷◌ c s) =
    let (l, ls, e) = split_lines-cases s in
    elim (Bool-cases (code c == 10)) [
      | inl h ↦ ("", split_lines s, rw h refl)
      | inr h ↦ (String.◌∷◌ c l, ls, rw (h, e) refl)
    ]

abbrev newline : Char
newline = char 10 tt

newline_cons : (s : String) → String.◌++◌ "\n" s ≡ String.◌∷◌ newline s
newline_cons s = cons-append newline String.[] s ∙ ap (String.◌∷◌ newline) (nil-append s)

-- A newline between two texts separates their lines.
split_lines-append :
    (s t : String)
    → split_lines (String.◌++◌ s (String.◌++◌ "\n" t)) ≡ split_lines s ++ split_lines t
unfolding split_lines
split_lines-append String.[] t = rw (nil-append (String.◌++◌ "\n" t), newline_cons t) refl
split_lines-append (String.◌∷◌ c s) t =
    let (l, ls, e) = split_lines-cases s in
    rw (cons-append c s (String.◌++◌ "\n" t), split_lines-append s t)
      (elim (Bool-cases (code c == 10)) [ inl h ↦ rw h refl | inr h ↦ rw (h, e) refl ])

or_earlier_assoc :
    (a b c : Option Record) → or_earlier (or_earlier a b) c ≡ or_earlier a (or_earlier b c)
or_earlier_assoc none b c = refl
or_earlier_assoc (some x) b c = refl

or_earlier-none : (a : Option Record) → a ≡ or_earlier a none
or_earlier-none none = refl
or_earlier-none (some x) = refl

module _ (codec : Codec) where
  last_of-append :
      (xs ys : List String)
      → last_of codec (xs ++ ys) ≡ or_earlier (last_of codec ys) (last_of codec xs)
  unfolding last_of
  last_of-append [] ys = or_earlier-none (last_of codec ys)
  last_of-append (x ∷ xs) ys =
      rw (last_of-append xs ys)
        (or_earlier_assoc (last_of codec ys) (last_of codec xs) (line_record codec x))

  -- The record of a file is that of what was appended last, and where that holds no record, as after
  -- a write that was cut off, it is the record of the file before.
  pub last_record-append :
      (before after : String)
      → last_record codec (String.◌++◌ before (String.◌++◌ "\n" after))
        ≡ or_earlier (last_record codec after) (last_record codec before)
  unfolding last_record
  last_record-append before after =
      rw (split_lines-append before after) (last_of-append (split_lines before) (split_lines after))

unfoldable pub has_newline : String → Bool
has_newline String.[] = false
has_newline (String.◌∷◌ c s) = (code c == 10) || has_newline s

split_lines-one : (s : String) → has_newline s ≡ false → split_lines s ≡ s ∷ []
unfolding split_lines has_newline
split_lines-one String.[] h = refl
split_lines-one (String.◌∷◌ c s) h =
    let other : (code c == 10) ≡ false = ground arith in
    rw (other, split_lines-one s (ground arith)) refl

abbrev pub brace : Char
brace = char 123 tt

-- `json.Marshal` writes a record as an object on one line, with no space around it, and `json.Unmarshal`
-- reads it back.
pub record IsLineCodec (codec : Codec) : Type 0 where
  pub reads_back :
      (rec : Record) (line : String)
      → codec.marshal rec ≡ some line
      → codec.unmarshal line ≡ some rec
  pub one_line :
      (rec : Record) (line : String) → codec.marshal rec ≡ some line → has_newline line ≡ false
  pub trimmed :
      (rec : Record) (line : String) → codec.marshal rec ≡ some line → trim_space line ≡ line
  pub opened :
      (rec : Record) (line : String)
      → codec.marshal rec ≡ some line
      → (rest : String) × (line ≡ String.◌∷◌ brace rest)

cons-not_empty : (c : Char) (s : String) → str_eq (String.◌∷◌ c s) "" ≡ false
cons-not_empty c s = elim (Bool-cases (str_eq (String.◌∷◌ c s) "")) [
  | inl h ↦ absurd (cons-ne-nil c s ((eq_iff (String.◌∷◌ c s) "").0 h))
  | inr h ↦ h
]

-- What begins with a brace is not blank.
pub trim_space-brace : (s : String) → str_eq (trim_space (String.◌∷◌ brace s)) "" ≡ false
unfolding trim_space trim_left trim_right is_space keep_unless_blank
trim_space-brace s = kept (trim_right s)
  where
    kept : (t : String) → str_eq (keep_unless_blank brace t) "" ≡ false
    kept String.[] = refl
    kept (String.◌∷◌ d t) = cons-not_empty brace (String.◌∷◌ d t)

pub last_record-marshal :
    (codec : Codec)
    → IsLineCodec codec
    → (rec : Record) (line : String) → codec.marshal rec ≡ some line
    → last_record codec (String.◌++◌ line "\n") ≡ some rec
unfolding last_record split_lines last_of trim_space
last_record-marshal codec L rec line e =
    ap (λ t. last_record codec (String.◌++◌ line t)) (sym (append-nil "\n"))
    ∙ last_record-append codec line ""
    ∙ rw (split_lines-one line (L.one_line rec line e), L.trimmed rec line e, line-not_empty)
        (L.reads_back rec line e)
  where
    line-not_empty : str_eq line "" ≡ false
    line-not_empty =
        let (rest, h) = L.opened rec line e in ap (λ x. str_eq x "") h ∙ cons-not_empty brace rest
