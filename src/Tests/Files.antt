-- ===== src/Tests/Files.antt =====
-- A file system of texts and locks in memory.

use Prim.Native.String
use text.Mathlib.TextLemmas.{append_cancel_right}
use excelsior.Common.{
  ℕ, ◌≡◌, ◌≢◌, refl, subst, ap, ◌∙◌, String, Bool, true, false, ◌==◌, if◌then◌else◌, str_eq, eq_iff,
  List, [], ◌∷◌, Option, none, some, Map, lookup, insert, erase, lookup-insert, lookup-erase,
  lookup-insert_self, lookup-erase_self, Result, ok, err, arith,
}
use excelsior.Util.Files.{
  FileSystem, FileError, not_exist, DirEntry, LockAnswer, busy, locked, IsFileSystem, IsPermanent,
}
use excelsior.Session.Lease.{lease_key}
use excelsior.Session.Lease.Host.{IsLocking}
use excelsior.Tests.Base.{platform}

pub record Texts : Type 0 where
  pub texts : Map String
  pub locks : Map ℕ

abbrev pub nothing_stored : Texts
nothing_stored = record { texts = []; locks = [] }

abbrev temporary : String
temporary = ".tmp-0"

abbrev pub read_text : Option String → Result FileError String
read_text none = err not_exist
read_text (some text) = ok text

abbrev rename_text : Texts → String → String → Option String → Texts × Bool
rename_text f old new none = (f, false)
rename_text f old new (some text) = (record f { texts = insert new text (erase old f.texts) }, true)

abbrev remove_text : Texts → String → Option String → Texts × Option FileError
remove_text f name none = (f, some not_exist)
remove_text f name (some text) = (record f { texts = erase name f.texts }, none)

abbrev lock_text : ℕ → Texts → String → Option ℕ → Texts × LockAnswer
lock_text pid f path (some holder) = (f, busy)
lock_text pid f path none = (record f { locks = insert path pid f.locks }, locked)

unfoldable pub drop_locks : ℕ → Map ℕ → Map ℕ
drop_locks pid [] = []
drop_locks pid ((path, holder) ∷ locks) =
    let rest = drop_locks pid locks in if pid == holder then rest else (path, holder) ∷ rest

abbrev names : Map String → List DirEntry
names [] = []
names ((name, text) ∷ files) = (record { name = name; is_dir = false }) ∷ names files

abbrev pub in_memory : FileSystem Texts
in_memory = record {
  dir_of = λ path. "";
  join = λ dir name. String.◌++◌ dir (String.◌++◌ "/" name);
  mkdir_all = λ f dir. (f, true);
  create_temp = λ f dir. (record f { texts = insert temporary "" f.texts }, some temporary);
  write = λ f name text. (record f { texts = insert name text f.texts }, true);
  sync = λ f name. (f, true);
  close = λ f name. (f, true);
  chmod = λ f name. (f, true);
  rename = λ f old new. rename_text f old new (lookup old f.texts);
  remove = λ f name. remove_text f name (lookup name f.texts);
  sync_dir = λ f dir. f;
  read_file = λ f name. read_text (lookup name f.texts);
  read_dir = λ f dir. ok (names f.texts);
  lock = λ pid f path. lock_text pid f path (lookup path f.locks);
  unlock = λ pid f path. record f { locks = erase path f.locks };
  exit = λ pid f. record f { locks = drop_locks pid f.locks };
}

insert-other :
    {V : Type 0} (k j : String) (v : V) (m : Map V)
    → str_eq k j ≡ false
    → lookup j (insert k v m) ≡ lookup j m
insert-other k j v m h = lookup-insert k j v m ∙ rw h refl

erase-other :
    {V : Type 0} (k j : String) (m : Map V) → str_eq k j ≡ false → lookup j (erase k m) ≡ lookup j m
erase-other k j m h = lookup-erase k j m ∙ rw h refl

rename_text-new :
    (f : Texts) (old new : String) (found : Option String)
    → (rename_text f old new found).1 ≡ true
    → read_text (lookup new (rename_text f old new found).0.texts) ≡ read_text found
rename_text-new f old new none e = absurd cc
rename_text-new f old new (some text) e =
    ap read_text (lookup-insert_self new text (erase old f.texts))

rename_text-other :
    (f : Texts) (old new p : String) (found : Option String)
    → str_eq old p ≡ false
    → str_eq new p ≡ false
    → lookup p (rename_text f old new found).0.texts ≡ lookup p f.texts
rename_text-other f old new p none h g = refl
rename_text-other f old new p (some text) h g =
    insert-other new p text (erase old f.texts) g ∙ erase-other old p f.texts h

rename_text-failed :
    (f : Texts) (old new p : String) (found : Option String)
    → (rename_text f old new found).1 ≡ false
    → lookup p (rename_text f old new found).0.texts ≡ lookup p f.texts
rename_text-failed f old new p none e = refl
rename_text-failed f old new p (some text) e = absurd cc

remove_text-other :
    (f : Texts) (name p : String) (found : Option String)
    → str_eq name p ≡ false
    → lookup p (remove_text f name found).0.texts ≡ lookup p f.texts
remove_text-other f name p none h = refl
remove_text-other f name p (some text) h = erase-other name p f.texts h

remove_text-gone :
    (f : Texts) (name : String) (found : Option String)
    → (remove_text f name found).1 ≡ none
    → lookup name (remove_text f name found).0.texts ≡ none
remove_text-gone f name none e = absurd cc
remove_text-gone f name (some text) e = lookup-erase_self name f.texts

remove_text-failed :
    (f : Texts) (name p : String) (x : FileError) (found : Option String)
    → (remove_text f name found).1 ≡ some x
    → lookup p (remove_text f name found).0.texts ≡ lookup p f.texts
remove_text-failed f name p x none e = refl
remove_text-failed f name p x (some text) e = absurd cc

remove_text-missing :
    (f : Texts) (name : String) (found : Option String)
    → (remove_text f name found).1 ≡ some not_exist
    → found ≡ none
remove_text-missing f name none e = refl
remove_text-missing f name (some text) e = absurd cc

lock_text-texts :
    (pid : ℕ) (f : Texts) (path p : String) (held : Option ℕ)
    → lookup p (lock_text pid f path held).0.texts ≡ lookup p f.texts
lock_text-texts pid f path p none = refl
lock_text-texts pid f path p (some holder) = refl

pub in_memory-IsFileSystem : IsFileSystem in_memory
in_memory-IsFileSystem = record {
  mkdir_all_keeps = λ f d p. refl;
  create_temp_keeps = λ f d name e p h. ap read_text (
      insert-other temporary p "" f.texts
        (ground (arith, e, eq_iff name p, eq_iff temporary p, h)));
  create_temp_fails = λ f d p e. absurd cc;
  create_temp_empty = λ f d name e.
      let named : temporary ≡ name = cc in
      subst (λ x. read_text (lookup x (insert temporary "" f.texts)) ≡ ok "") named
        (ap read_text (lookup-insert_self temporary "" f.texts));
  write_keeps = λ f name text p h. ap read_text (insert-other name p text f.texts h);
  write_lem = λ f name text e h. ap read_text (lookup-insert_self name text f.texts);
  sync_keeps = λ f name p. refl;
  close_keeps = λ f name p. refl;
  chmod_keeps = λ f name p. refl;
  sync_dir_keeps = λ f d p. refl;
  rename_lem = λ f old new e. rename_text-new f old new (lookup old f.texts) e;
  rename_keeps =
      λ f old new p h g. ap read_text (rename_text-other f old new p (lookup old f.texts) h g);
  rename_fails =
      λ f old new p e. ap read_text (rename_text-failed f old new p (lookup old f.texts) e);
  remove_keeps = λ f name p h. ap read_text (remove_text-other f name p (lookup name f.texts) h);
  remove_lem = λ f name e. ap read_text (remove_text-gone f name (lookup name f.texts) e);
  remove_fails =
      λ f name p x e. ap read_text (remove_text-failed f name p x (lookup name f.texts) e);
  remove_missing = λ f name e. ap read_text (remove_text-missing f name (lookup name f.texts) e);
  lock_keeps = λ pid f path p h. ap read_text (lock_text-texts pid f path p (lookup path f.locks));
  unlock_keeps = λ pid f path p. refl;
}

pub permanent : (p : String) → str_eq ".tmp-0" p ≡ false → IsPermanent in_memory p
permanent p h f d name e = ground (arith, e, h, eq_iff name p, eq_iff ".tmp-0" p)

abbrev pub owner : Texts → String → Option ℕ
owner f dir = lookup (in_memory.join dir ".owner.lock") f.locks

lock_name_iff :
    (d k : String)
    → str_eq (in_memory.join d ".owner.lock") (in_memory.join k ".owner.lock") ≡ str_eq d k
lock_name_iff d k = ground (
  arith,
  eq_iff d k,
  eq_iff (in_memory.join d ".owner.lock") (in_memory.join k ".owner.lock"),
  append_cancel_right d k (String.◌++◌ "/" ".owner.lock"),
  λ (h : d ≡ k). ap (λ x. in_memory.join x ".owner.lock") h,
)

lock_text-free :
    (pid : ℕ) (f : Texts) (path : String) (held : Option ℕ)
    → (lock_text pid f path held).1 ≡ locked
    → held ≡ none
lock_text-free pid f path none e = refl
lock_text-free pid f path (some holder) e = absurd cc

lock_text-same :
    (pid : ℕ) (f : Texts) (path p : String) (held : Option ℕ)
    → (lock_text pid f path held).1 ≢ locked
    → lookup p (lock_text pid f path held).0.locks ≡ lookup p f.locks
lock_text-same pid f path p none e = absurd (e refl)
lock_text-same pid f path p (some holder) e = refl

lock_text-taken :
    (pid : ℕ) (f : Texts) (path p : String) (held : Option ℕ)
    → (lock_text pid f path held).1 ≡ locked
    → lookup p (lock_text pid f path held).0.locks
      ≡ (if str_eq path p then some pid else lookup p f.locks)
lock_text-taken pid f path p none e = lookup-insert path p pid f.locks
lock_text-taken pid f path p (some holder) e = absurd cc

drop_locks-others :
    (pid i : ℕ) (path : String) (locks : Map ℕ)
    → (pid == i) ≡ false
    → lookup path locks ≡ some i
    → lookup path (drop_locks pid locks) ≡ some i
unfolding lookup drop_locks
drop_locks-others pid i path [] h e = e
drop_locks-others pid i path ((p, holder) ∷ locks) h e =
    ground (arith, drop_locks-others pid i path locks h, e, eq_iff p path)

pub in_memory-IsLocking : IsLocking platform in_memory owner
unfolding lease_key
in_memory-IsLocking = record {
  lock_free = λ pid f dir e. lock_text-free pid f (in_memory.join dir ".owner.lock") _ e;
  lock_lem = λ pid f dir k e.
      lock_text-taken pid f (in_memory.join dir ".owner.lock") _ _ e
      ∙ rw (lock_name_iff dir k) refl;
  lock_open_failed =
      λ pid f path k e. lock_text-same pid f path _ (lookup path f.locks) (λ h. absurd cc);
  lock_busy = λ pid f path k e. lock_text-same pid f path _ (lookup path f.locks) (λ h. absurd cc);
  unlock_lem = λ pid f dir k. lookup-erase _ _ f.locks ∙ rw (lock_name_iff dir k) refl;
  exit_keeps = λ pid i f k h e. drop_locks-others pid i _ f.locks h e;
  mkdir_all_owner = λ f dir k. refl;
}
