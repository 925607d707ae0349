-- ===== src/Tools/Edit.antt =====
-- pkg/tools/edit.go. A file is its text; `regular` is what `Stat` says of it.
pub mod Occurrence
pub mod Replacing
use Prim.Native.Char.{Char, code}
use Prim.Native.String
use Prim.Native.String.{len, count}
use excelsior.Common.{
  ℕ, zero, suc, ◌-◌, String, Bool, true, false, ◌==◌, ltb, if◌then◌else◌, str_eq, Option, none,
  some, Result, ok, err,
}
use excelsior.Util.{trim_space}
use excelsior.Util.Files.{FileSystem, FileError}
use excelsior.Util.Atomic.{WriteError, write_atomic}
use excelsior.Tools.Types.{
  ToolError, invalid_arguments, file_too_large, text_not_found, ambiguous_match, not_regular,
  context_done, io_failed, max_write_size, PermissionHandler, check_permission,
}
use excelsior.Tools.Paths.{FilePaths, secure_join}

-- What follows a prefix, if it is one.
unfoldable pub strip_prefix : String → String → Option String
strip_prefix String.[] s = some s
strip_prefix (String.◌∷◌ c p) String.[] = none
strip_prefix (String.◌∷◌ c p) (String.◌∷◌ d s) =
    let rest = strip_prefix p s in if code c == code d then rest else none

abbrev is_found : Option String → Bool
is_found none = false
is_found (some s) = true

-- `strings.Count` of a text that is not empty, `size + 1` long: occurrences that do not overlap.
-- `skip` characters belong to the occurrence that was counted last.
unfoldable pub count_from : String → ℕ → ℕ → String → ℕ
unfolding strip_prefix
count_from old size skip String.[] = 0
count_from old size (suc skip) (String.◌∷◌ c s) = count_from old size skip s
count_from old size zero (String.◌∷◌ c s) = elim (is_found (strip_prefix old (String.◌∷◌ c s))) [
  | true ↦ suc (count_from old size size s)
  | false ↦ count_from old size zero s
]

unfoldable pub occurrences : String → String → ℕ
unfolding count_from
occurrences content old = count_from old (count old - 1) 0 content

-- `strings.Replace(content, old, new, 1)`.
unfoldable pub replace_first : String → String → String → String
unfolding strip_prefix
replace_first old new String.[] = String.[]
replace_first old new (String.◌∷◌ c s) =
    let rest = String.◌∷◌ c (replace_first old new s) in
    elim (strip_prefix old (String.◌∷◌ c s)) [ some after ↦ String.◌++◌ new after | none ↦ rest ]

pub record EditArgs : Type 0 where
  pub file_path : String
  pub old_text : String
  pub new_text : String

abbrev trimmed_args : EditArgs → EditArgs
trimmed_args a = record a { file_path = trim_space a.file_path }

-- `parseEditArgs` on what encoding/json decodes.
unfoldable pub parse_edit_args : Option EditArgs → Result ToolError EditArgs
unfolding trim_space
parse_edit_args none = err invalid_arguments
parse_edit_args (some a) =
    if str_eq (trim_space a.file_path) ""
    then err invalid_arguments
    else if str_eq a.old_text ""
    then err invalid_arguments
    else if ltb max_write_size (len a.new_text)
    then err file_too_large
    else ok (trimmed_args a)

unfoldable pub validate_edit_uniqueness : String → EditArgs → Option ToolError
unfolding occurrences
validate_edit_uniqueness content a =
    let n = occurrences content a.old_text in
    if n == 0 then some text_not_found else if ltb 1 n then some ambiguous_match else none

-- The context is done at the start, at the question, or before the write; `cut` is `s[:n]`.
pub record EditCall : Type 0 where
  pub done_at_start : Bool
  pub done_at_question : Bool
  pub done_before_write : Bool
  pub handler : Option PermissionHandler
  pub cut : String → ℕ → String

abbrev preview_of : EditCall → EditArgs → String
preview_of call a =
    let preview = String.◌++◌ a.old_text (String.◌++◌ "\n→\n" a.new_text) in
    if ltb 8000 (len preview) then String.◌++◌ (call.cut preview 8000) "\n… truncated" else preview

unfoldable pub check_edit_permission : EditCall → EditArgs → Option ToolError
unfolding check_permission
check_edit_permission call a =
    check_permission call.done_at_question call.handler
      (record { tool = "edit"; file_path = a.file_path; preview = preview_of call a; command = "" })

module _ {F : Type 0} (fs : FileSystem F) (paths : FilePaths) (regular : F → String → Bool) where
  abbrev pub sized : Result FileError String → Result ToolError String
  sized (err e) = err io_failed
  sized (ok text) = if ltb max_write_size (len text) then err file_too_large else ok text

  unfoldable pub read_edit_file : F → String → Result ToolError String
  read_edit_file f target =
      if regular f target then sized (fs.read_file f target) else err not_regular

  abbrev pub edited : EditArgs → F × Option WriteError → F × Result ToolError String
  edited a (f, none) = (f, ok (String.◌++◌ "Edited " a.file_path))
  edited a (f, some e) = (f, err io_failed)

  abbrev pub write_edit : EditCall → EditArgs → String → F → String → F × Result ToolError String
  write_edit call a target f content =
      if ltb max_write_size (len content)
      then (f, err file_too_large)
      else if call.done_before_write
      then (f, err context_done)
      else edited a (write_atomic fs target content f)

  abbrev pub replace_in :
      EditCall → EditArgs → String → F → Result ToolError String → F × Result ToolError String
  replace_in call a target f (err e) = (f, err e)
  replace_in call a target f (ok content) = elim (validate_edit_uniqueness content a) [
    | some e ↦ (f, err e)
    | none ↦ write_edit call a target f (replace_first a.old_text a.new_text content)
  ]

  abbrev pub edit_at :
      EditCall → EditArgs → F → Result ToolError String → F × Result ToolError String
  edit_at call a f (err e) = (f, err e)
  edit_at call a f (ok target) = replace_in call a target f (read_edit_file f target)

  abbrev pub edit_permitted :
      EditCall → String → EditArgs → F → Option ToolError → F × Result ToolError String
  edit_permitted call root a f (some e) = (f, err e)
  edit_permitted call root a f none = edit_at call a f (secure_join paths root a.file_path)

  abbrev pub edit_parsed :
      EditCall → String → F → Result ToolError EditArgs → F × Result ToolError String
  edit_parsed call root f (err e) = (f, err e)
  edit_parsed call root f (ok a) = edit_permitted call root a f (check_edit_permission call a)

  -- `Execute`.
  unfoldable pub execute_edit :
      EditCall → String → Option EditArgs → F → F × Result ToolError String
  unfolding parse_edit_args check_edit_permission secure_join read_edit_file
      validate_edit_uniqueness replace_first write_atomic
  execute_edit call root args f =
      if call.done_at_start
      then (f, err context_done)
      else edit_parsed call root f (parse_edit_args args)
