-- ===== src/Tools/Bash.antt =====
-- pkg/tools/bash.go. The process is a parameter: what it writes, chunk by chunk, and how it ends. An
-- output is its bytes.
pub mod Bounds
use Prim.Native.String
use Prim.Native.String.{len}
use excelsior.Common.{
  ℕ, zero, suc, ◌-◌, String, Bool, true, false, ltb, leb, ◌||◌, if◌then◌else◌, str_eq, List, [],
  ◌∷◌, ◌++◌, length, Option, none, some, Result, ok, err, ℤ, pos, negsuc,
}
use excelsior.Util.{trim_space}
use excelsior.Tools.Types.{
  ToolError, invalid_arguments, command_too_long, context_done, start_failed, max_command_length,
  PermissionHandler, check_permission,
}

abbrev pub max_shell_output : ℕ
max_shell_output = 100000

pub record ShellOutput : Type 0 where
  pub buf : List ℕ
  pub truncated : Bool

abbrev pub take : ℕ → List ℕ → List ℕ
take zero bytes = []
take (suc n) [] = []
take (suc n) (b ∷ bytes) = b ∷ take n bytes

-- `Write`: what is over the limit is dropped, and told as written.
unfoldable pub write_output : ShellOutput → List ℕ → ShellOutput
write_output o p =
    let remaining = max_shell_output - length o.buf in
    if ltb remaining (length p)
    then record { buf = o.buf ++ take remaining p; truncated = true }
    else record o { buf = o.buf ++ p }

unfoldable pub write_all : ShellOutput → List (List ℕ) → ShellOutput
unfolding write_output
write_all o [] = o
write_all o (p ∷ ps) = write_all (write_output o p) ps

abbrev pub no_output : ShellOutput
no_output = record { buf = []; truncated = false }

-- `String`, with the bytes of its note.
unfoldable pub output_bytes : List ℕ → ShellOutput → List ℕ
output_bytes note o = if o.truncated then o.buf ++ note else o.buf

pub record BashArgs : Type 0 where
  pub command : String
  pub timeout : Option ℤ

abbrev bad_timeout : Option ℤ → Bool
bad_timeout none = false
bad_timeout (some (negsuc n)) = true
bad_timeout (some (pos n)) = ltb n 1000 || ltb 120000 n

-- The checks of `Execute` on what encoding/json decodes.
unfoldable pub parse_bash_args : Option BashArgs → Result ToolError BashArgs
unfolding trim_space
parse_bash_args none = err invalid_arguments
parse_bash_args (some a) =
    let command = trim_space a.command in
    if str_eq command ""
    then err invalid_arguments
    else if ltb max_command_length (len command)
    then err command_too_long
    else if bad_timeout a.timeout
    then err invalid_arguments
    else ok (record a { command = command })

abbrev pub timeout_ms : Option ℤ → ℕ
timeout_ms none = 30000
timeout_ms (some (pos n)) = n
timeout_ms (some (negsuc n)) = 0

-- How a command ends: it is not started, or it is waited for, with an error or not, the deadline
-- passed or the context done.
pub data Ending : Type 0 where
  not_started exited_well timed_out interrupted exited_badly : Ending

pub record Run : Type 0 where
  pub chunks : List (List ℕ)
  pub ending : Ending

-- The texts that `runShell` adds, as bytes.
pub record Notes : Type 0 where
  pub truncated : List ℕ
  pub timeout : List ℕ
  pub exit_error : List ℕ
  pub no_output : List ℕ

abbrev or_note : List ℕ → List ℕ → List ℕ
or_note note [] = note
or_note note (b ∷ bytes) = b ∷ bytes

-- The second part of the result is the error that comes with an output.
abbrev ended : Notes → List ℕ → Ending → List ℕ × Option ToolError
ended notes out not_started = ([], some start_failed)
ended notes out timed_out = (out ++ notes.timeout, none)
ended notes out interrupted = (out, some context_done)
ended notes out exited_badly = (out ++ notes.exit_error, none)
ended notes out exited_well = (or_note notes.no_output out, none)

module _ (notes : Notes) (run : String → ℕ → Run) where
  unfoldable pub run_shell : String → Option ℤ → List ℕ × Option ToolError
  unfolding write_all output_bytes
  run_shell command timeout =
      let r = run command (timeout_ms timeout) in
      ended notes (output_bytes notes.truncated (write_all no_output r.chunks)) r.ending

  abbrev bash_permitted : BashArgs → Option ToolError → List ℕ × Option ToolError
  bash_permitted a (some e) = ([], some e)
  bash_permitted a none = run_shell a.command a.timeout

  abbrev bash_parsed :
      Bool → Option PermissionHandler → Result ToolError BashArgs → List ℕ × Option ToolError
  bash_parsed asked_done handler (err e) = ([], some e)
  bash_parsed asked_done handler (ok a) = bash_permitted a (
      check_permission asked_done handler
        (record { tool = "bash"; file_path = ""; preview = ""; command = a.command }))

  -- `Execute`; the context is done at the start, or at the question.
  unfoldable pub execute_bash :
      Bool → Bool → Option PermissionHandler → Option BashArgs → List ℕ × Option ToolError
  unfolding run_shell parse_bash_args check_permission
  execute_bash ctx_done asked_done handler args =
      if ctx_done
      then ([], some context_done)
      else bash_parsed asked_done handler (parse_bash_args args)
