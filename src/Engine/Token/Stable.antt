-- ===== src/Engine/Token/Stable.antt =====
-- A token that `OwnerToken` gives out is the one that it reads from then on.
use Prim.Native.String
use excelsior.Common.{
  ℕ, suc, ◌+◌, ◌≡◌, ◌≢◌, refl, sym, ◌∙◌, ap, subst, String, Bool, true, false, Option, none, some,
  Result, ok, err, inl, inr, Bool-cases,
}
use excelsior.Util.{trim_space}
use excelsior.Util.Files.{
  FileSystem, FileError, not_exist, other_failure, IsFileSystem, IsPermanent,
}
use excelsior.Util.Atomic.{WriteError, write_atomic}
use excelsior.Util.Atomic.Whole.{write_atomic-IsWhole}
use excelsior.Engine.Token.Plain.{is_plain, trim_space-plain}
use excelsior.Engine.Token.{
  TokenError, TokenHost, OpenAnswer, opened, already_exists, open_refused, TokenAnswer,
  is_token_size, refused_with, owner_path, token_of_text, drawn_token, rotated, token_closed,
  token_written, token_opened, store_token, protected, dir_made, create_token, token_read, token_at,
  token_in, owner_token, read_failed, mkdir_failed, protect_failed, open_failed, write_failed,
  close_failed, rotate_failed,
}

module _ {F : Type 0} (fs : FileSystem F) (host : TokenHost F) where
  -- What the documentation of encoding/hex and of O_EXCL says: an identifier is 32 hexadecimal
  -- digits, and a file that is not created because it exists does exist.
  pub record IsTokenHost : Type 0 where
    pub ids_size : (i j : ℕ) → host.hex_size (String.◌++◌ (host.new_id i) (host.new_id j)) ≡ some 32
    pub ids_plain : (i j : ℕ) → is_plain (String.◌++◌ (host.new_id i) (host.new_id j)) ≡ true
    pub open_new_empty :
        (f : F) (path : String)
        → (host.open_new f path).1 ≡ opened
        → fs.read_file (host.open_new f path).0 path ≡ ok ""
    pub open_new_exists :
        (f : F) (path : String)
        → (host.open_new f path).1 ≡ already_exists
        → fs.read_file (host.open_new f path).0 path ≢ err not_exist

  -- The file has what is read as this token.
  abbrev IsKept : String → TokenAnswer F → Type 0
  IsKept path r =
      r.2 ≡ none
      → (text : String) × (fs.read_file r.0 path ≡ ok text)
        × (token_of_text fs host r.0 text ≡ (r.0, r.1, none))

  abbrev Gives : String → Option (TokenAnswer F) → Type 0
  Gives path x = (r : TokenAnswer F) × (x ≡ some r) × IsKept path r

  token_of_text-IsKept :
      (f : F) (path text : String)
      → fs.read_file f path ≡ ok text
      → IsKept path (token_of_text fs host f text)
  unfolding token_of_text
  token_of_text-IsKept f path text e =
      elim (Bool-cases (is_token_size (host.hex_size (trim_space text)))) [
        | inl sized ↦ rw sized (λ h. (text, e, rw sized refl))
        | inr bad ↦ rw bad (λ h. absurd cc)
      ]

  refused_with-Gives :
      (f : F) (path : String) (e : TokenError) → Gives path (refused_with fs host f e)
  refused_with-Gives f path e = ((f, "", some e), refl, λ h. absurd cc)

  module _ (L : IsFileSystem fs) (H : IsTokenHost) (path : String) (n : ℕ) where
    abbrev stored : String
    stored = String.◌++◌ (drawn_token fs host n) "\n"

    stored-IsKept :
        (f : F) → fs.read_file f path ≡ ok stored → IsKept path (f, drawn_token fs host n, none)
    unfolding token_of_text is_token_size
    stored-IsKept f e h = (
      stored,
      e,
      rw
          (
            trim_space-plain (drawn_token fs host n) (H.ids_plain (n + n) (suc (n + n))),
            H.ids_size (n + n) (suc (n + n)),
          )
          refl,
    )

    module _ (lasting : IsPermanent fs path) where
      abbrev token : String
      token = drawn_token fs host n

      written_whole :
          (f : F)
          → let r = write_atomic fs path stored f in r.1 ≡ none → fs.read_file r.0 path ≡ ok stored
      written_whole f h = elim (write_atomic-IsWhole fs L path stored lasting f) [
        | inl (done, full, kept) ↦ full
        | inr (e, why, kept) ↦ absurd cc
      ]

      rotated-Gives :
          (r : F × Option WriteError)
          → (r.1 ≡ none → fs.read_file r.0 path ≡ ok stored)
          → Gives path (rotated fs host path token r)
      rotated-Gives (g, none) h = ((g, token, none), refl, stored-IsKept g (h refl))
      rotated-Gives (g, some e) h = ((g, token, some (rotate_failed e)), refl, λ x. absurd cc)

      token_closed-Gives :
          (r : F × Bool)
          → fs.read_file r.0 path ≡ ok stored
          → Gives path (token_closed fs host path token r)
      token_closed-Gives (g, true) e = ((g, token, none), refl, stored-IsKept g e)
      token_closed-Gives (g, false) e = ((g, token, some close_failed), refl, λ x. absurd cc)

      token_written-Gives :
          (r : F × Bool)
          → (r.1 ≡ true → fs.read_file r.0 path ≡ ok stored)
          → Gives path (token_written fs host path token r)
      token_written-Gives (g, true) h =
          token_closed-Gives (fs.close g path) (L.close_keeps g path path ∙ h refl)
      token_written-Gives (g, false) h = refused_with-Gives (fs.close g path).0 path write_failed

      module _ (again : F → Option (TokenAnswer F))
          (again-Gives : (g : F) → fs.read_file g path ≢ err not_exist → Gives path (again g)) where
        token_opened-Gives :
            (r : F × OpenAnswer)
            → (r.1 ≡ opened → fs.read_file r.0 path ≡ ok "")
            → (r.1 ≡ already_exists → fs.read_file r.0 path ≢ err not_exist)
            → Gives path (token_opened fs host path token again r)
        token_opened-Gives (g, opened) h there =
            token_written-Gives (fs.write g path stored) (L.write_lem g path stored (h refl))
        token_opened-Gives (g, already_exists) h there = again-Gives g (there refl)
        token_opened-Gives (g, open_refused) h there = refused_with-Gives g path open_failed

        store_token-Gives :
            (rotate : Bool) (f : F) → Gives path (store_token fs host path token again rotate f)
        unfolding store_token
        store_token-Gives true f = rotated-Gives (write_atomic fs path stored f) (written_whole f)
        store_token-Gives false f =
            token_opened-Gives (host.open_new f path) (H.open_new_empty f path)
              (H.open_new_exists f path)

        protected-Gives :
            (rotate : Bool) (r : F × Bool)
            → Gives path (protected fs host path token again rotate r)
        protected-Gives rotate (g, true) = store_token-Gives rotate g
        protected-Gives rotate (g, false) = refused_with-Gives g path protect_failed

        dir_made-Gives :
            (rotate : Bool) (r : F × Bool) → Gives path (dir_made fs host path token again rotate r)
        dir_made-Gives rotate (g, true) =
            protected-Gives rotate (host.protect_dir g (fs.dir_of path))
        dir_made-Gives rotate (g, false) = refused_with-Gives g path mkdir_failed

        create_token-Gives :
            (rotate : Bool) (f : F) → Gives path (create_token fs host path token again rotate f)
        unfolding create_token
        create_token-Gives rotate f = dir_made-Gives rotate (fs.mkdir_all f (fs.dir_of path))

        token_read-Gives :
            (f : F) (r : Result FileError String)
            → fs.read_file f path ≡ r
            → Gives path (token_read fs host path token again f r)
        token_read-Gives f (ok text) e =
            (token_of_text fs host f text, refl, token_of_text-IsKept f path text e)
        token_read-Gives f (err not_exist) e = create_token-Gives false f
        token_read-Gives f (err other_failure) e = refused_with-Gives f path read_failed

        token_at-Gives :
            (rotate : Bool) (f : F) → Gives path (token_at fs host again token rotate f path)
        unfolding token_at
        token_at-Gives true f = create_token-Gives true f
        token_at-Gives false f = token_read-Gives f (fs.read_file f path) refl

  -- Where the file is there, one call is enough.
  token_read-there :
      (path fresh : String) (again : F → Option (TokenAnswer F)) (f : F)
      (r : Result FileError String)
      → fs.read_file f path ≡ r
      → fs.read_file f path ≢ err not_exist
      → Gives path (token_read fs host path fresh again f r)
  token_read-there path fresh again f (ok text) e there =
      (token_of_text fs host f text, refl, token_of_text-IsKept f path text e)
  token_read-there path fresh again f (err not_exist) e there = absurd (there e)
  token_read-there path fresh again f (err other_failure) e there =
      refused_with-Gives f path read_failed

  module _ (path : String) (named : owner_path fs host ≡ some path) where
    owner_token-named :
        (n : ℕ) (rotate : Bool) (f : F)
        → owner_token fs host (suc n) rotate f
          ≡ token_at fs host (owner_token fs host n false) (drawn_token fs host n) rotate f path
    unfolding owner_token token_in
    owner_token-named n rotate f =
        ap (token_in fs host (owner_token fs host n false) (drawn_token fs host n) rotate f) named

    owner_token-there :
        (n : ℕ) (f : F)
        → fs.read_file f path ≢ err not_exist
        → Gives path (owner_token fs host (suc n) false f)
    unfolding token_at
    owner_token-there n f there = subst (Gives path) (sym (owner_token-named n false f)) (
        token_read-there path (drawn_token fs host n) (owner_token fs host n false) f
          (fs.read_file f path) refl there)

    owner_token-read :
        (n : ℕ) (r : TokenAnswer F)
        → IsKept path r
        → r.2 ≡ none
        → owner_token fs host (suc n) false r.0 ≡ some (r.0, r.1, none)
    unfolding token_at
    owner_token-read n r kept h =
        let (text, full, read) = kept h in
        owner_token-named n false r.0
        ∙ ap (token_read fs host path (drawn_token fs host n) (owner_token fs host n false) r.0)
            full
        ∙ ap some read

  -- OwnerToken, rotating or not, returns after at most one further call of itself. If it returns no
  -- error then every later call that does not rotate finds the same token in the file, and changes
  -- nothing. The token file has a path, which is never that of a temporary file; identifiers are
  -- hexadecimal, and a file that is not created because it exists does exist.
  pub owner_token_stable :
      IsFileSystem fs
      → IsTokenHost
      → (path : String) → owner_path fs host ≡ some path
      → IsPermanent fs path
      → (rotate : Bool) (f : F)
      → (r : TokenAnswer F) × (owner_token fs host 2 rotate f ≡ some r)
        × (r.2 ≡ none → (n : ℕ) → owner_token fs host (suc n) false r.0 ≡ some (r.0, r.1, none))
  owner_token_stable L H path named lasting rotate f =
      let (r, e, kept) =
        token_at-Gives L H path 1 lasting (owner_token fs host 1 false)
          (owner_token-there path named 0) rotate f in
      (
        r,
        owner_token-named path named 1 rotate f ∙ e,
        λ h n. owner_token-read path named n r kept h,
      )
