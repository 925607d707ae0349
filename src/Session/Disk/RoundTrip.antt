-- ===== src/Session/Disk/RoundTrip.antt =====
-- `Load` after `Save` on disk.
use Prim.Native.String
use text.Mathlib.TextLemmas.{cons-append}
use excelsior.Common.{
  ℕ, ◌==◌, ◌≡◌, refl, ◌∙◌, ap, subst, String, true, false, if◌then◌else◌, str_eq, eq_iff, Option,
  none, some, Result, ok, ◌⊎◌, inl, inr, Bool-cases, Option-cases,
}
use excelsior.Util.{trim_space}
use excelsior.Util.Files.{FileSystem, IsFileSystem, IsPermanent}
use excelsior.Util.Atomic.{WriteError, write_atomic}
use excelsior.Util.Atomic.Whole.{IsWhole, write_atomic-IsWhole}
use excelsior.Chat.Workspace.{Platform}
use excelsior.Session.Types.{Record, SessionError, io_failure}
use excelsior.Session.Disk.Lines.{Codec}
use excelsior.Session.Disk.Reading.{IsLineCodec, brace, trim_space-brace, last_record-marshal}
use excelsior.Session.Disk.Owner.{DirStore, Disk, ensure_lease, path}
use excelsior.Session.Disk.{
  stamped, save, completed, load, load_text, load_at, written, write_line, save_at,
}

-- What is read of a record that was saved: its title and messages, under the identifier that it has
-- or else the one that was asked for, created when it says or else now, and updated now.
abbrev pub read_back : ℕ → String → Record → Record
read_back now id rec =
    let created = if rec.created_at == 0 then now else rec.created_at in
    record {
      id = if str_eq rec.id "" then id else rec.id;
      title = rec.title;
      created_at = created;
      updated_at = if now == 0 then created else now;
      messages = rec.messages;
    }

module _ {F : Type 0} (p : Platform) (fs : FileSystem F) (codec : Codec) (pid : ℕ) where
  ensure_lease-held :
      (d : Disk F) → d.closed ≡ false → d.holds ≡ true → ensure_lease p fs pid d ≡ (d, none)
  unfolding ensure_lease
  ensure_lease-held d open_ held = rw (open_, held) refl

  module _ (L : IsFileSystem fs) (C : IsLineCodec codec) (now : ℕ) (rec : Record)
      (id target read : String) (lasting : IsPermanent fs target)
      (apart : IsPermanent fs read) where
    -- The rest of `Save` once it knows the file, against what `Load` reads before and after.
    abbrev IsSaved : Disk F → Disk F × Option SessionError → Type 0
    IsSaved d r =
        let seen : Disk F → Result SessionError Record =
          λ x. load_at p fs codec pid id x (ok read) in
        ((r.1 ≡ none)
          × (seen r.0
              ≡ (if str_eq target read then ok (completed id (stamped now rec)) else seen d)))
        ⊎ ((e : SessionError) × (r.1 ≡ some e) × (seen r.0 ≡ seen d))

    load_text-line :
        (line : String)
        → codec.marshal (stamped now rec) ≡ some line
        → load_text codec id (ok (String.◌++◌ line "\n")) ≡ ok (completed id (stamped now rec))
    unfolding load_text
    load_text-line line e =
        rw (line-not_blank, last_record-marshal codec C (stamped now rec) line e) refl
      where
        line-not_blank : str_eq (trim_space (String.◌++◌ line "\n")) "" ≡ false
        line-not_blank =
            let (rest, h) = C.opened (stamped now rec) line e in
            ap (λ x. str_eq (trim_space (String.◌++◌ x "\n")) "") h
            ∙ (ap (λ x. str_eq (trim_space x) "") (cons-append brace rest "\n")
                ∙ trim_space-brace (String.◌++◌ rest "\n"))

    write_line-IsSaved :
        (d : Disk F) (line : Option String)
        → codec.marshal (stamped now rec) ≡ line
        → IsSaved d (write_line p fs codec pid target d line)
    write_line-IsSaved d none e = inr (io_failure, refl, refl)
    write_line-IsSaved d (some line) e =
        written-IsSaved (write_atomic fs target (String.◌++◌ line "\n") d.files)
          (write_atomic-IsWhole fs L target (String.◌++◌ line "\n") lasting d.files)
      where
        written-IsSaved :
            (r : F × Option WriteError)
            → IsWhole fs L target (String.◌++◌ line "\n") (IsPermanent fs) d.files r
            → IsSaved d (written p fs codec pid d r)
        written-IsSaved (f, none) (inl (done, full, kept)) = inl (
          refl,
          elim (Bool-cases (str_eq target read)) [
            | inl h ↦
                ap (load_text codec id) (
                  subst (λ x. fs.read_file f x ≡ ok (String.◌++◌ line "\n"))
                    ((eq_iff target read).0 h) full)
                ∙ rw h (load_text-line line e)
            | inr h ↦ rw h (ap (load_text codec id) (kept read apart h))
          ],
        )
        written-IsSaved (f, none) (inr (x, h, kept)) = absurd cc
        written-IsSaved (f, some x) (inl (h, full, kept)) = absurd cc
        written-IsSaved (f, some x) (inr (y, h, kept)) =
            inr (io_failure, refl, ap (load_text codec id) (kept read apart))

    save_at-IsSaved : (d : Disk F) → IsSaved d (save_at p fs codec pid now rec d (ok target))
    save_at-IsSaved d = write_line-IsSaved d (codec.marshal (stamped now rec)) refl

  written-dir_store :
      (d : Disk F) (r : F × Option WriteError)
      → (written p fs codec pid d r).0.dir_store ≡ d.dir_store
  written-dir_store d (f, none) = refl
  written-dir_store d (f, some e) = refl

  save_at-dir_store :
      (d : Disk F) (now : ℕ) (rec : Record) (target : String)
      → (save_at p fs codec pid now rec d (ok target)).0.dir_store ≡ d.dir_store
  save_at-dir_store d now rec target = elim (Option-cases (codec.marshal (stamped now rec))) [
    | inl h ↦ rw h refl
    | inr (line, h) ↦
        rw h (written-dir_store d (write_atomic fs target (String.◌++◌ line "\n") d.files))
  ]

  save-held :
      (d : Disk F) (now : ℕ) (rec : Record) (target : String)
      → d.closed ≡ false
      → d.holds ≡ true
      → path fs d.dir rec.id ≡ ok target
      → save p fs codec pid d now rec ≡ save_at p fs codec pid now rec d (ok target)
  unfolding save
  save-held d now rec target open_ held e = rw (ensure_lease-held d open_ held, e) refl

  load-held :
      (d : Disk F) (id read : String)
      → d.closed ≡ false
      → d.holds ≡ true
      → path fs d.dir id ≡ ok read
      → load p fs codec pid d id ≡ (d, load_at p fs codec pid id d (ok read))
  unfolding load
  load-held d id read open_ held e = rw (ensure_lease-held d open_ held, e) refl

  -- A store that holds its lease saves a record. If Save succeeds, Load reads the title and messages
  -- that were saved, created when the record says or else now, and updated now, under each identifier
  -- whose file is the same, and under every other identifier it reads what it read before. If Save fails, Load reads what it read before under
  -- every identifier. Both identifiers are valid, and files of sessions are not temporary files.
  pub load-save_disk :
      IsFileSystem fs
      → IsLineCodec codec
      → (d : Disk F) (now : ℕ) (rec : Record) (id target read : String) → d.closed ≡ false
      → d.holds ≡ true
      → path fs d.dir rec.id ≡ ok target
      → path fs d.dir id ≡ ok read
      → IsPermanent fs target
      → IsPermanent fs read
      → let r = save p fs codec pid d now rec in
        let before = (load p fs codec pid d id).1 in
        let after = (load p fs codec pid r.0 id).1 in
        ((r.1 ≡ none)
          × (after ≡ (if str_eq target read then ok (read_back now id rec) else before)))
        ⊎ ((e : SessionError) × (r.1 ≡ some e) × (after ≡ before))
  unfolding completed stamped
  load-save_disk L C d now rec id target read open_ held e e' lasting apart =
      let same = save_at-dir_store d now rec target in
      let x = (save_at p fs codec pid now rec d (ok target)).0 in
      let again =
        load-held x id read (ap (λ (s : DirStore). s.closed) same ∙ open_)
          (ap (λ (s : DirStore). s.holds) same ∙ held)
          (ap (λ (s : DirStore). path fs s.dir id) same ∙ e') in
      rw (save-held d now rec target open_ held e, again, load-held d id read open_ held e')
        (save_at-IsSaved L C now rec id target read lasting apart d)
