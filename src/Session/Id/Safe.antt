-- ===== src/Session/Id/Safe.antt =====
-- `sanitizeID` answers with identifiers that it would answer with again.
use Prim.Native.Char.{Char, code}
use Prim.Native.String.{count}
use excelsior.Session.Types.{empty_session_id, invalid_session_id}
use excelsior.Common.{
  ℕ, suc, ◌&&◌, ◌==◌, not, leb, err, sym, Bool, if◌then◌else◌, ◌≡◌, refl, subst, String, true,
  false, inl, inr, ok, str_eq, eq_iff, arith, Bool-cases,
}
use excelsior.Util.{is_space, keep_unless_blank, trim_left, trim_right, trim_space}
use excelsior.Session.Id.{is_alnum, is_id_char, all_id_chars, valid_id, sanitize_id}

id_char-not_space : (c : Char) → is_id_char c ≡ true → is_space c ≡ false
unfolding is_id_char is_alnum is_space
id_char-not_space c h = ground arith

pub keep_unless_blank-not_space :
    (c : Char) (s : String) → is_space c ≡ false → keep_unless_blank c s ≡ String.◌∷◌ c s
unfolding keep_unless_blank
keep_unless_blank-not_space c String.[] h = rw h refl
keep_unless_blank-not_space c (String.◌∷◌ d t) h = refl

trim_right-id_chars : (s : String) → all_id_chars s ≡ true → trim_right s ≡ s
unfolding all_id_chars trim_right
trim_right-id_chars String.[] h = refl
trim_right-id_chars (String.◌∷◌ c s) h =
    rw (trim_right-id_chars s (ground arith))
      (keep_unless_blank-not_space c s (id_char-not_space c (ground arith)))

trim_space-valid_id : (s : String) → valid_id s ≡ true → trim_space s ≡ s
unfolding trim_space valid_id trim_left is_id_char
trim_space-valid_id String.[] h = absurd (ground arith)
trim_space-valid_id (String.◌∷◌ c s) h =
    let ok_ : is_id_char c ≡ true = ground arith in
    rw (id_char-not_space c ok_) (trim_right-id_chars (String.◌∷◌ c s) (ground arith))

sanitize_id-valid : (id safe : String) → sanitize_id id ≡ ok safe → valid_id safe ≡ true
unfolding sanitize_id
sanitize_id-valid id safe h = elim (Bool-cases (str_eq (trim_space id) "")) [
  | inl e ↦ absurd (ground (arith, h, e))
  | inr e ↦ elim (Bool-cases (valid_id (trim_space id))) [
    | inl v ↦ ground (arith, h, e, v)
    | inr v ↦ absurd (ground (arith, h, e, v))
  ]
]

valid_id-not_empty : (s : String) → valid_id s ≡ true → str_eq s "" ≡ false
unfolding valid_id
valid_id-not_empty s h = elim (Bool-cases (str_eq s "")) [
  | inl e ↦
      let empty : valid_id "" ≡ true = subst (λ t. valid_id t ≡ true) ((eq_iff s "").0 e) h in
      absurd (ground (arith, empty))
  | inr e ↦ e
]

sanitize_id-valid_id : (s : String) → valid_id s ≡ true → sanitize_id s ≡ ok s
unfolding sanitize_id
sanitize_id-valid_id s h = rw (trim_space-valid_id s h, valid_id-not_empty s h, h) refl

pub sanitize_id_idem : (id safe : String) → sanitize_id id ≡ ok safe → sanitize_id safe ≡ ok safe
sanitize_id_idem id safe h = sanitize_id-valid_id safe (sanitize_id-valid id safe h)

-- The characters of a name of a file: those of ASCII from '-' to 'z' but for the slash, for what
-- stands between '9' and 'A', and for what stands between 'Z' and 'a' other than '_'.
abbrev pub is_name_code : ℕ → Bool
is_name_code n =
    leb 45 n
    && leb n 122
    && not (n == 47)
    && not (leb 58 n && leb n 64)
    && not (leb 91 n && leb n 94)
    && not (n == 96)

unfoldable pub all_name_codes : String → Bool
all_name_codes String.[] = true
all_name_codes (String.◌∷◌ c s) = is_name_code (code c) && all_name_codes s

-- Such characters, 2 to 64 of them, of which the first is no punctuation: neither "." nor "..", no
-- path with a separator, and no option of a command.
unfoldable pub is_name : String → Bool
unfolding all_name_codes
is_name String.[] = false
is_name (String.◌∷◌ c s) =
    not (code c == b'-')
    && not (code c == b'.')
    && not (code c == b'_')
    && all_name_codes (String.◌∷◌ c s)
    && leb 2 (suc (count s))
    && leb (suc (count s)) 64

is_id_char-name : (c : Char) → is_id_char c ≡ is_name_code (code c)
unfolding is_id_char is_alnum
is_id_char-name c = ground arith

all_id_chars-names : (s : String) → all_id_chars s ≡ all_name_codes s
unfolding all_id_chars all_name_codes
all_id_chars-names String.[] = refl
all_id_chars-names (String.◌∷◌ c s) = rw (is_id_char-name c, all_id_chars-names s) refl

is_alnum-name :
    (c : Char)
    → is_alnum c ≡ (
        not (code c == b'-')
        && not (code c == b'.')
        && not (code c == b'_')
        && is_name_code (code c))
unfolding is_alnum
is_alnum-name c = ground arith

valid_id-is_name : (s : String) → valid_id s ≡ is_name s
unfolding valid_id is_name all_name_codes
valid_id-is_name String.[] = refl
valid_id-is_name (String.◌∷◌ c s) =
    rw (is_alnum-name c, all_id_chars-names s)
      (regroup (not (code c == b'-')) (not (code c == b'.')) (not (code c == b'_'))
        (is_name_code (code c)) (all_name_codes s) (count s))
  where
    regroup :
        (p q r n a : Bool) (k : ℕ)
        → ((p && q && r && n) && a && leb 1 k && leb k 63)
          ≡ (p && q && r && (n && a) && leb 2 (suc k) && leb (suc k) 64)
    regroup p q r n a k = ground arith

-- `sanitizeID` accepts the identifiers that are names of files when the space around them is taken
-- off, and answers with that name; it refuses every other one, and an empty one as such. What it
-- answers with, it accepts as it is.
pub sanitize_id-name :
    (id : String)
    → let name = trim_space id in
      (sanitize_id id ≡ (
        if str_eq name ""
        then err empty_session_id
        else if is_name name
        then ok name
        else err invalid_session_id))
      × ((safe : String) → sanitize_id id ≡ ok safe → sanitize_id safe ≡ ok safe)
unfolding sanitize_id
sanitize_id-name id = (rw (sym (valid_id-is_name (trim_space id))) refl, sanitize_id_idem id)
