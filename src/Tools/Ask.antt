-- ===== src/Tools/Ask.antt =====
-- `AskTool.Execute` of pkg/tools/ask.go. `decimal` is what fmt writes for a number.
use Prim.Native.String
use excelsior.Common.{
  ℕ, zero, suc, ◌+◌, ◌-◌, String, Bool, true, ltb, if◌then◌else◌, str_eq, List, [], ◌∷◌, ◌++◌,
  length, Option, none, some, Result, ok, err, ℤ, pos, negsuc,
}
use excelsior.Util.{trim_space}
use excelsior.Tools.Types.{ToolError, invalid_arguments, context_done, handler_failed}

pub record AskArgs : Type 0 where
  pub question : String
  pub options : List String
  pub allow_manual : Option Bool

pub record AskRequest : Type 0 where
  pub question : String
  pub options : List String
  pub allow_manual : Bool

pub record AskResponse : Type 0 where
  pub selected : ℤ
  pub label : String
  pub answer : String

-- What a handler answers: a response, `context.Canceled`, or another error.
pub data AskAnswer : Type 0 where
  responded : AskResponse → AskAnswer
  canceled failed : AskAnswer

module _ (decimal : ℕ → String) where
  -- The loop that fills the options up, `n` of them still missing.
  abbrev pub fill_options : ℕ → List String → List String
  fill_options zero opts = opts
  fill_options (suc n) opts =
      fill_options n (opts ++ String.◌++◌ "Option " (decimal (length opts + 1)) ∷ [])

  abbrev pub first_three : List String → List String
  first_three [] = []
  first_three (a ∷ []) = a ∷ []
  first_three (a ∷ b ∷ []) = a ∷ b ∷ []
  first_three (a ∷ b ∷ c ∷ rest) = a ∷ b ∷ c ∷ []

  unfoldable pub three_options : List String → List String
  three_options opts = fill_options (3 - length opts) (first_three opts)

  abbrev manual : Option Bool → Bool
  manual none = true
  manual (some allow) = allow

  abbrev typed_answer : String → String
  typed_answer answer =
      if str_eq (trim_space answer) ""
      then "User provided no answer."
      else String.◌++◌ "User answered: " answer

  -- A selection in range is told with its number from 1 on.
  abbrev pub told : AskResponse → ℤ → String
  told r (negsuc n) = typed_answer r.answer
  told r (pos n) =
      if ltb n 3
      then String.◌++◌ "User selected [" (String.◌++◌ (decimal (n + 1)) (String.◌++◌ "]: " r.label))
      else typed_answer r.answer

  abbrev answered : AskAnswer → Result ToolError String
  answered (responded r) = ok (told r r.selected)
  answered canceled = ok "Question cancelled."
  answered failed = err handler_failed

  abbrev numbered : String → List String → String
  numbered question (a ∷ b ∷ c ∷ rest) = String.◌++◌ "QUESTION: " (
      String.◌++◌ question (
        String.◌++◌ " | OPTIONS: 1) " (
          String.◌++◌ a (
            String.◌++◌ "  2) "
              (String.◌++◌ b (String.◌++◌ "  3) " (String.◌++◌ c "  (or manual)")))))))
  numbered question opts = question

  abbrev ask_with : Option (AskRequest → AskAnswer) → String → AskArgs → Result ToolError String
  ask_with none question a = ok (numbered question (three_options a.options))
  ask_with (some handler) question a = answered (
      handler (record {
        question = question;
        options = three_options a.options;
        allow_manual = manual a.allow_manual;
      }))

  abbrev ask_decoded : Option (AskRequest → AskAnswer) → Option AskArgs → Result ToolError String
  ask_decoded handler none = err invalid_arguments
  ask_decoded handler (some a) =
      if str_eq (trim_space a.question) ""
      then err invalid_arguments
      else ask_with handler (trim_space a.question) a

  unfoldable pub execute_ask :
      Bool → Option (AskRequest → AskAnswer) → Option AskArgs → Result ToolError String
  unfolding three_options trim_space
  execute_ask ctx_done handler args =
      if ctx_done then err context_done else ask_decoded handler args
