-- ===== src/Session/Id.antt =====
-- `sanitizeID` of pkg/session/session.go: the regular expression
-- ^[a-zA-Z0-9][a-zA-Z0-9._-]{1,63}$ after `strings.TrimSpace`.
pub mod Safe
use Prim.Native.Char.{Char, code}
use Prim.Native.String
use Prim.Native.String.{count}
use excelsior.Common.{
  ℕ, String, Bool, true, false, ◌&&◌, ◌||◌, ◌==◌, leb, str_eq, if◌then◌else◌, Result, ok, err,
}
use excelsior.Util.{trim_space}
use excelsior.Session.Types.{SessionError, empty_session_id, invalid_session_id}

unfoldable pub is_alnum : Char → Bool
is_alnum ch =
    let c = code ch in
    (leb b'a' c && leb c b'z') || (leb b'A' c && leb c b'Z') || (leb b'0' c && leb c b'9')

unfoldable pub is_id_char : Char → Bool
unfolding is_alnum
is_id_char ch = is_alnum ch || (code ch == b'.') || (code ch == b'_') || (code ch == b'-')

unfoldable pub all_id_chars : String → Bool
unfolding is_id_char
all_id_chars String.[] = true
all_id_chars (String.◌∷◌ c s) = is_id_char c && all_id_chars s

unfoldable pub valid_id : String → Bool
unfolding all_id_chars
valid_id String.[] = false
valid_id (String.◌∷◌ c s) = is_alnum c && all_id_chars s && leb 1 (count s) && leb (count s) 63

unfoldable pub sanitize_id : String → Result SessionError String
unfolding trim_space valid_id
sanitize_id id =
    let trimmed = trim_space id in
    if str_eq trimmed ""
    then err empty_session_id
    else if valid_id trimmed
    then ok trimmed
    else err invalid_session_id
