-- ===== src/Tests/Tools.antt =====
-- The theorems about tools at concrete inputs.

use Prim.Native.String
use excelsior.Common.{ℕ, ◌+◌, ◌≤◌, ◌≡◌, refl, true, false, List, [], ◌∷◌, none, some, length}
use excelsior.Tools.Paths.{FilePaths, secure_join}
use excelsior.Tools.Edit.{EditArgs, EditCall, parse_edit_args, occurrences, execute_edit}
use excelsior.Tools.Edit.Replacing.{IsEdited, execute_edit-IsEdited}
use excelsior.Tools.Bash.{write_all, no_output, output_bytes}
use excelsior.Tools.Bash.Bounds.{output_bounded}
use excelsior.Tests.Files.{Texts, in_memory, in_memory-IsFileSystem, permanent}

-- A workspace without symbolic links, whose paths are clean.
abbrev paths : FilePaths
paths = record {
  is_abs = λ p. false;
  abs = λ p. some p;
  clean = λ p. p;
  join = λ root p. String.◌++◌ root (String.◌++◌ "/" p);
  rel = λ root p. some p;
  eval_symlinks = λ p. some p;
  dir = λ p. p;
  separator = "/";
}

abbrev files : Texts
files = record { texts = ("/w/a", "one two") ∷ ("/w/b", "three") ∷ []; locks = [] }

abbrev args : EditArgs
args = record { file_path = "a"; old_text = "two"; new_text = "2" }

abbrev call : EditCall
call = record {
  done_at_start = false;
  done_at_question = false;
  done_before_write = false;
  handler = none;
  cut = λ s n. s;
}

execute_edit-IsEdited_example :
    IsEdited in_memory paths
      (λ f p. true)
      in_memory-IsFileSystem
      call
      args
      "/w/a"
      "/w/b"
      (permanent "/w/a" refl)
      (permanent "/w/b" refl)
      refl
      files
      (execute_edit in_memory paths (λ f p. true) call "/w" (some args) files)
unfolding parse_edit_args secure_join
execute_edit-IsEdited_example =
    execute_edit-IsEdited in_memory paths (λ f p. true) in_memory-IsFileSystem call args "/w/a"
      "/w/b" (permanent "/w/a" refl) (permanent "/w/b" refl) refl "/w" (some args) files refl refl

-- Occurrences that overlap are counted once.
overlapping : occurrences "aaa" "aa" ≡ 1
unfolding occurrences
overlapping = refl

abbrev note : List ℕ
note = 46 ∷ []

abbrev written : List (List ℕ)
written = (104 ∷ 105 ∷ []) ∷ []

output_bounded_example :
    length (output_bytes note (write_all no_output written)) ≤ 100000 + length note
output_bounded_example = output_bounded note written
