-- ===== src/Tools/Edit/Replacing.antt =====
-- An edit replaces the first occurrence of its text, or leaves the file as it was.
use Prim.Native.String
use Prim.Native.String.{count, len}
use excelsior.Common.{
  ◌≡◌, refl, sym, ap, ◌∙◌, subst, String, Bool, false, ltb, str_eq, Option, none, some, Result, ok,
  err, ◌⊎◌, inl, inr, Bool-cases, if_cases, option_cases,
}
use excelsior.Util.{trim_space}
use excelsior.Util.Files.{FileSystem, FileError, IsFileSystem, IsPermanent}
use excelsior.Util.Atomic.{WriteError, write_atomic}
use excelsior.Util.Atomic.Whole.{IsWhole, write_atomic-IsWhole}
use excelsior.Tools.Types.{
  ToolError, context_done, io_failed, file_too_large, not_regular, max_write_size,
}
use excelsior.Tools.Paths.{FilePaths, secure_join}
use excelsior.Tools.Edit.Occurrence.{IsFirst, IsAbsent, unique-Replaces}
use excelsior.Tools.Edit.{
  sized, replace_first, EditArgs, EditCall, parse_edit_args, check_edit_permission,
  validate_edit_uniqueness, read_edit_file, edited, write_edit, replace_in, edit_at, edit_permitted,
  edit_parsed, execute_edit,
}

abbrev text_of : String → Result ToolError String → String
text_of other (ok text) = text
text_of other (err e) = other

module _ {F : Type 0} (fs : FileSystem F) (paths : FilePaths) (regular : F → String → Bool)
    (L : IsFileSystem fs) (call : EditCall) (a : EditArgs) (target q : String)
    (lasting : IsPermanent fs target) (other : IsPermanent fs q)
    (apart : str_eq target q ≡ false) where
  -- A failure changes nothing; a success has the permission of the user, and replaces the first
  -- occurrence in the target.
  abbrev pub IsEdited : F → F × Result ToolError String → Type 0
  IsEdited f r =
      (((e : ToolError) × (r.1 ≡ err e) × (fs.read_file r.0 target ≡ fs.read_file f target))
        ⊎ ((message : String) × (before : String) × (after : String) × (content : String) × (r.1
              ≡ ok message)
            × (check_edit_permission call a ≡ none)
            × IsFirst a.old_text content before
            × IsAbsent a.old_text after
            × (content ≡ String.◌++◌ before (String.◌++◌ a.old_text after))
            × (fs.read_file f target ≡ ok content)
            × (fs.read_file r.0 target ≡ ok (String.◌++◌ before (String.◌++◌ a.new_text after)))))
      × (fs.read_file r.0 q ≡ fs.read_file f q)

  refused-IsEdited : (f : F) (e : ToolError) → IsEdited f (f, err e)
  refused-IsEdited f e = (inl (e, refl, refl), refl)

  parse_edit_args-filled :
      (args : Option EditArgs) → parse_edit_args args ≡ ok a → str_eq a.old_text "" ≡ false
  unfolding parse_edit_args
  parse_edit_args-filled none h = absurd cc
  parse_edit_args-filled (some x) h =
      let Filled = λ (r : Result ToolError EditArgs). r ≡ ok a → str_eq a.old_text "" ≡ false in
      if_cases Filled (str_eq (trim_space x.file_path) "") _ _ (λ _ e. absurd cc)
        (λ _.
          if_cases Filled (str_eq x.old_text "") _ _ (λ _ e. absurd cc)
            (λ named.
              if_cases Filled (ltb max_write_size (len x.new_text)) _ _ (λ _ e. absurd cc)
                (λ _ e. ap (λ (y : EditArgs). str_eq y.old_text "") (sym (args_of e)) ∙ named)))
        h
    where
      args_of : {y : EditArgs} → ◌≡◌ {A = Result ToolError EditArgs} (ok y) (ok a) → y ≡ a
      args_of e = cc

  module _ (filled : str_eq a.old_text "" ≡ false) where
    edited-IsEdited :
        (f : F) (content : String) (r : F × Option WriteError)
        → check_edit_permission call a ≡ none
        → validate_edit_uniqueness content a ≡ none
        → fs.read_file f target ≡ ok content
        → IsWhole fs L target (replace_first a.old_text a.new_text content) (IsPermanent fs) f r
        → IsEdited f (edited fs paths regular a r)
    edited-IsEdited f content (g, none) may unique here (inl (done, full, kept)) =
        let (before, after, split, joined, first, absent) =
          unique-Replaces content a filled unique in
        (
          inr (
            String.◌++◌ "Edited " a.file_path,
            before,
            after,
            content,
            refl,
            may,
            first,
            absent,
            split,
            here,
            full ∙ ap ok joined,
          ),
          kept q other apart,
        )
    edited-IsEdited f content (g, none) may unique here (inr (e, h, kept)) = absurd cc
    edited-IsEdited f content (g, some e) may unique here (inl (h, full, kept)) = absurd cc
    edited-IsEdited f content (g, some e) may unique here (inr (d, h, kept)) =
        (inl (io_failed, refl, kept target lasting), kept q other)

    write_edit-IsEdited :
        (f : F) (content : String)
        → check_edit_permission call a ≡ none
        → validate_edit_uniqueness content a ≡ none
        → fs.read_file f target ≡ ok content
        → IsEdited f (
            write_edit fs paths regular call a target f
              (replace_first a.old_text a.new_text content))
    write_edit-IsEdited f content may unique here =
        let result = replace_first a.old_text a.new_text content in
        if_cases (IsEdited f) (ltb max_write_size (len result)) (f, err file_too_large) _
          (λ h. refused-IsEdited f file_too_large)
          λ h.
            if_cases (IsEdited f) call.done_before_write (f, err context_done)
              (edited fs paths regular a (write_atomic fs target result f))
              (λ g. refused-IsEdited f context_done)
              λ g.
                edited-IsEdited f content (write_atomic fs target result f) may unique here
                  (write_atomic-IsWhole fs L target result lasting f)

    sized-same :
        (r : Result FileError String) (content : String)
        → sized fs paths regular r ≡ ok content
        → r ≡ ok content
    sized-same (err e) content h = absurd cc
    sized-same (ok text) content h = elim (Bool-cases (ltb max_write_size (len text))) [
      | inl g ↦ let gone : err file_too_large ≡ ok content = rw g at h in absurd cc
      | inr g ↦
          let kept : ◌≡◌ {A = Result ToolError String} (ok text) (ok content) = rw g at h in
          ap ok (ap (text_of text) kept)
    ]

    sized-here :
        (f : F) (content : String)
        → read_edit_file fs paths regular f target ≡ ok content
        → fs.read_file f target ≡ ok content
    unfolding read_edit_file
    sized-here f content e = elim (Bool-cases (regular f target)) [
      | inl h ↦ sized-same (fs.read_file f target) content (rw h at e)
      | inr h ↦ let gone : err not_regular ≡ ok content = rw h at e in absurd cc
    ]

    replace_in-IsEdited :
        (f : F) (text : Result ToolError String)
        → check_edit_permission call a ≡ none
        → read_edit_file fs paths regular f target ≡ text
        → IsEdited f (replace_in fs paths regular call a target f text)
    replace_in-IsEdited f (err e) may here = refused-IsEdited f e
    replace_in-IsEdited f (ok content) may here =
        option_cases (IsEdited f) (validate_edit_uniqueness content a)
          (write_edit fs paths regular call a target f
            (replace_first a.old_text a.new_text content))
          (λ e. (f, err e)) (λ h. write_edit-IsEdited f content may h (sized-here f content here))
          λ e h. refused-IsEdited f e

    edit_permitted-IsEdited :
        (root : String) (f : F) (o : Option ToolError)
        → secure_join paths root a.file_path ≡ ok target
        → check_edit_permission call a ≡ o
        → IsEdited f (edit_permitted fs paths regular call root a f o)
    edit_permitted-IsEdited root f (some e) joined may = refused-IsEdited f e
    edit_permitted-IsEdited root f none joined may =
        subst (λ r. IsEdited f (edit_at fs paths regular call a f r)) (sym joined)
          (replace_in-IsEdited f (read_edit_file fs paths regular f target) may refl)

  -- The edit tool on arguments that are accepted, for a path that names the target in the workspace.
  -- If it fails, the file is as it was. If it succeeds, then the user, where one is asked, has
  -- permitted it, and the file now has the new text in the place of the first occurrence of the old
  -- text, and the same text before and after it. The text after it has no occurrence: another one
  -- can only overlap the first, as in "aaa" for "aa", and then the edit succeeds all the same. Every
  -- other file is as it was. Neither file is a temporary one.
  pub execute_edit-IsEdited :
      (root : String) (args : Option EditArgs) (f : F)
      → parse_edit_args args ≡ ok a
      → secure_join paths root a.file_path ≡ ok target
      → IsEdited f (execute_edit fs paths regular call root args f)
  unfolding execute_edit
  execute_edit-IsEdited root args f parsed joined =
      if_cases (IsEdited f) call.done_at_start (f, err context_done)
        (edit_parsed fs paths regular call root f (parse_edit_args args))
        (λ h. refused-IsEdited f context_done)
        λ h.
          subst (λ r. IsEdited f (edit_parsed fs paths regular call root f r)) (sym parsed)
            (edit_permitted-IsEdited (parse_edit_args-filled args parsed) root f
              (check_edit_permission call a) joined refl)
