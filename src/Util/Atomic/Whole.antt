-- ===== src/Util/Atomic/Whole.antt =====
-- A file that `WriteAtomic` writes has its old content or the new one, whichever call fails.
use excelsior.Common.{
  ◌≡◌, refl, ap, subst, ◌∙◌, String, Bool, true, false, Option, none, some, ok, ◌⊎◌, inl, inr,
  str_eq,
}
use excelsior.Util.Files.{FileSystem, IsFileSystem, IsPermanent}
use excelsior.Util.Atomic.{
  WriteError, mkdir_failed, create_temp_failed, write_failed, sync_failed, close_failed,
  chmod_failed, rename_failed, or_fail, after_rename, after_chmod, after_close, after_sync,
  after_write, after_mkdir, fill, clean_up, write_temp, write_atomic,
}

or_fail_cases :
    {F : Type 0} (fs : FileSystem F) (P : F × Option WriteError → Type 0) (e : WriteError)
    (next : F → F × Option WriteError) (r : F × Bool)
    → (r.1 ≡ false → P (r.0, some e))
    → (r.1 ≡ true → P (next r.0))
    → P (or_fail fs e next r)
or_fail_cases fs P e next (f, true) failing succeeding = succeeding refl
or_fail_cases fs P e next (f, false) failing succeeding = failing refl

module _ {F : Type 0} (fs : FileSystem F) (L : IsFileSystem fs) (path : String)
    (text : String) where
  -- What a call leaves behind, over the files that `Q` names.
  abbrev pub IsWhole : (String → Type 0) → F → F × Option WriteError → Type 0
  IsWhole Q f r =
      ((r.1 ≡ none)
        × (fs.read_file r.0 path ≡ ok text)
        × ((q : String) → Q q → str_eq path q ≡ false → fs.read_file r.0 q ≡ fs.read_file f q))
      ⊎ ((e : WriteError) × (r.1 ≡ some e)
          × ((q : String) → Q q → fs.read_file r.0 q ≡ fs.read_file f q))

  -- While the temporary file is filled: it has the text, and nothing else has changed.
  module _ (name : String) (f : F) where
    abbrev Others : String → Type 0
    Others q = str_eq name q ≡ false

    abbrev IsFilled : F → Type 0
    IsFilled g =
        (fs.read_file g name ≡ ok text)
        × ((q : String) → Others q → fs.read_file g q ≡ fs.read_file f q)

    -- A call that changes no content, in front of the rest.
    through :
        (e : WriteError) (next : F → F × Option WriteError) (g : F) (r : F × Bool)
        → ((q : String) → fs.read_file r.0 q ≡ fs.read_file g q)
        → IsFilled g
        → (IsFilled r.0 → IsWhole Others f (next r.0))
        → IsWhole Others f (or_fail fs e next r)
    through e next g r same filled rest =
        or_fail_cases fs (IsWhole Others f) e next r
          (λ h. inr (e, refl, λ q o. same q ∙ filled.1 q o))
          λ h. rest (same name ∙ filled.0, λ q o. same q ∙ filled.1 q o)

    after_chmod-IsWhole : (g : F) → IsFilled g → IsWhole Others f (after_chmod fs name path g)
    after_chmod-IsWhole g filled =
        or_fail_cases fs (IsWhole Others f) rename_failed (after_rename fs path)
          (fs.rename g name path)
          (λ h. inr (rename_failed, refl, λ q o. L.rename_fails g name path q h ∙ filled.1 q o))
          λ h.
            let d = fs.dir_of path in
            let g' = (fs.rename g name path).0 in
            inl (
              refl,
              L.sync_dir_keeps g' d path ∙ (L.rename_lem g name path h ∙ filled.0),
              λ q o apart.
                  L.sync_dir_keeps g' d q ∙ (L.rename_keeps g name path q o apart ∙ filled.1 q o),
            )

    after_write-IsWhole : (g : F) → IsFilled g → IsWhole Others f (after_write fs name path g)
    after_write-IsWhole g filled =
        through sync_failed (after_sync fs name path) g (fs.sync g name) (L.sync_keeps g name)
          filled
          λ synced.
            let h = (fs.sync g name).0 in
            through close_failed (after_close fs name path) h (fs.close h name)
              (L.close_keeps h name) synced
              λ closed.
                let i = (fs.close h name).0 in
                through chmod_failed (after_chmod fs name path) i (fs.chmod i name)
                  (L.chmod_keeps i name) closed (after_chmod-IsWhole (fs.chmod i name).0)

    fill-IsWhole : fs.read_file f name ≡ ok "" → IsWhole Others f (fill fs name path text f)
    unfolding fill
    fill-IsWhole fresh =
        or_fail_cases fs (IsWhole Others f) write_failed (after_write fs name path)
          (fs.write f name text) (λ h. inr (write_failed, refl, L.write_keeps f name text))
          λ h.
            after_write-IsWhole (fs.write f name text).0
              (L.write_lem f name text fresh h, L.write_keeps f name text)

    clean_up-IsWhole :
        (r : F × Option WriteError)
        → Others path
        → IsWhole Others f r
        → IsWhole Others f (clean_up fs name r)
    clean_up-IsWhole (g, none) apart (inl (e, full, kept)) =
        inl (refl, L.close_keeps g name path ∙ full, λ q o d. L.close_keeps g name q ∙ kept q o d)
    clean_up-IsWhole (g, none) apart (inr (e, h, kept)) = absurd cc
    clean_up-IsWhole (g, some e) apart (inl (h, full, kept)) = absurd cc
    clean_up-IsWhole (g, some e) apart (inr (d, h, kept)) = inr (
      e,
      refl,
      λ q o. L.remove_keeps (fs.close g name).0 name q o ∙ (L.close_keeps g name q ∙ kept q o),
    )

  -- The view of the caller, who does not see the temporary file.
  write_temp-IsWhole :
      IsPermanent fs path
      → (f g : F) (r : F × Option String) → fs.create_temp g (fs.dir_of path) ≡ r
      → ((q : String) → fs.read_file g q ≡ fs.read_file f q)
      → IsWhole (IsPermanent fs) f (write_temp fs path text r)
  write_temp-IsWhole lasting f g (h, none) e same = inr (
    create_temp_failed,
    refl,
    λ q o.
        subst (λ r. fs.read_file r.0 q ≡ fs.read_file g q) e
          (L.create_temp_fails g (fs.dir_of path) q (ap (λ r. r.1) e))
        ∙ same q,
  )
  write_temp-IsWhole lasting f g (h, some name) e same =
      let d = fs.dir_of path in
      let made = ap (λ r. r.1) e in
      let apart : (q : String) → IsPermanent fs q → str_eq name q ≡ false =
        λ q o. o g d name made in
      let before : (q : String) → str_eq name q ≡ false → fs.read_file h q ≡ fs.read_file f q =
        λ q o.
          subst (λ r. fs.read_file r.0 q ≡ fs.read_file g q) e
            (L.create_temp_keeps g d name made q o)
          ∙ same q in
      let fresh : fs.read_file h name ≡ ok "" =
        subst (λ r. fs.read_file r.0 name ≡ ok "") e (L.create_temp_empty g d name made) in
      elim (clean_up-IsWhole name h (fill fs name path text h) (apart path lasting)
        (fill-IsWhole name h fresh)) [
          | inl (done, full, kept) ↦
              inl (done, full, λ q o away. kept q (apart q o) away ∙ before q (apart q o))
          | inr (failed, why, kept) ↦
              inr (failed, why, λ q o. kept q (apart q o) ∙ before q (apart q o))
        ]

  pub write_atomic-IsWhole :
      IsPermanent fs path → (f : F) → IsWhole (IsPermanent fs) f (write_atomic fs path text f)
  unfolding write_atomic
  write_atomic-IsWhole lasting f =
      or_fail_cases fs (IsWhole (IsPermanent fs) f) mkdir_failed (after_mkdir fs path text)
        (fs.mkdir_all f (fs.dir_of path))
        (λ h. inr (mkdir_failed, refl, λ q o. L.mkdir_all_keeps f (fs.dir_of path) q))
        λ made. write_temp-IsWhole lasting f _ _ refl (L.mkdir_all_keeps f (fs.dir_of path))

  -- WriteAtomic either succeeds, and then the file has the new content, or fails, and then the file
  -- is as it was before: no failing call leaves it with another content. In both cases every other
  -- file whose name is not one of a temporary file is unchanged. The path is not the name of a
  -- temporary file.
  pub write_atomic_whole :
      IsPermanent fs path
      → (f : F) (q : String) → IsPermanent fs q
      → str_eq path q ≡ false
      → let r = write_atomic fs path text f in
        ((r.1 ≡ none) × (fs.read_file r.0 path ≡ ok text) × (fs.read_file r.0 q ≡ fs.read_file f q))
        ⊎ ((e : WriteError) × (r.1 ≡ some e)
            × (fs.read_file r.0 path ≡ fs.read_file f path)
            × (fs.read_file r.0 q ≡ fs.read_file f q))
  write_atomic_whole lasting f q o apart = elim (write_atomic-IsWhole lasting f) [
    | inl (done, full, kept) ↦ inl (done, full, kept q o apart)
    | inr (e, why, kept) ↦ inr (e, why, kept path lasting, kept q o)
  ]
