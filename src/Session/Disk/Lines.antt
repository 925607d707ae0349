-- ===== src/Session/Disk/Lines.antt =====
-- `lastRecord` of pkg/session/session.go, and the names of session files. encoding/json is a
-- parameter.
use Prim.Native.Char.{Char, code}
use excelsior.Common.{String, ◌==◌, if◌then◌else◌, str_eq, List, [], ◌∷◌, Option, none, some}
use excelsior.Util.{trim_space}
use excelsior.Session.Types.{Record}

-- `json.Marshal` and `json.Unmarshal` of a record; `none` is an error.
pub record Codec : Type 0 where
  pub marshal : Record → Option String
  pub unmarshal : String → Option Record

-- The first line of the rest, longer by a character.
abbrev pub on_first : Char → List String → List String
on_first c [] = (String.◌∷◌ c "") ∷ []
on_first c (line ∷ lines) = String.◌∷◌ c line ∷ lines

-- `bytes.Split(b, "\n")`: there is always one line.
unfoldable pub split_lines : String → List String
split_lines String.[] = "" ∷ []
split_lines (String.◌∷◌ c s) =
    let rest = split_lines s in if code c == 10 then "" ∷ rest else on_first c rest

abbrev pub or_earlier : Option Record → Option Record → Option Record
or_earlier (some rec) earlier = some rec
or_earlier none earlier = earlier

module _ (codec : Codec) where
  abbrev pub line_record : String → Option Record
  line_record line = if str_eq (trim_space line) "" then none else codec.unmarshal (trim_space line)

  -- From the last line back: a line counts where no later one is a record.
  unfoldable pub last_of : List String → Option Record
  last_of [] = none
  last_of (line ∷ lines) = or_earlier (last_of lines) (line_record line)

  unfoldable pub last_record : String → Option Record
  unfolding split_lines last_of
  last_record text = last_of (split_lines text)

-- The name without the extension, for a name that has it.
unfoldable pub without_ext : String → String → Option String
without_ext ext String.[] = none
without_ext ext (String.◌∷◌ c s) =
    let rest = without_ext ext s in
    if str_eq (String.◌∷◌ c s) ext
    then some ""
    else elim rest [ none ↦ none | some stem ↦ some (String.◌∷◌ c stem) ]
