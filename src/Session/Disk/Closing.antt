-- ===== src/Session/Disk/Closing.antt =====
-- A store that was closed.
use excelsior.Common.{ℕ, ◌≡◌, refl, String, true, some, err, if_cases}
use excelsior.Util.Files.{FileSystem}
use excelsior.Chat.Workspace.{Platform}
use excelsior.Session.Types.{Record, store_closed}
use excelsior.Session.Disk.Lines.{Codec}
use excelsior.Session.Disk.Owner.{Disk, ensure_lease, close}
use excelsior.Session.Disk.{save, load, list, delete}

module _ {F : Type 0} (p : Platform) (fs : FileSystem F) (codec : Codec) (pid : ℕ) where
  ensure_lease-closed :
      (d : Disk F) → d.closed ≡ true → ensure_lease p fs pid d ≡ (d, some store_closed)
  unfolding ensure_lease
  ensure_lease-closed d h = rw h refl

  close-closed : (d : Disk F) → (close p fs pid d).closed ≡ true
  unfolding close
  close-closed d = if_cases (λ (c : Disk F). c.closed ≡ true) d.holds _ _ (λ h. refl) (λ h. refl)

  -- After Close every operation of the store fails as closed and leaves the store as it is: nothing
  -- is written, and the lease is not taken again.
  pub close_refuses :
      (d : Disk F) (now : ℕ) (rec : Record) (id : String)
      → let c = close p fs pid d in
        (save p fs codec pid c now rec ≡ (c, some store_closed))
        × (load p fs codec pid c id ≡ (c, err store_closed))
        × (list p fs codec pid c ≡ (c, err store_closed))
        × (delete p fs codec pid c id ≡ (c, some store_closed))
        × (ensure_lease p fs pid c ≡ (c, some store_closed))
  unfolding save load list delete
  close_refuses d now rec id =
      let e = ensure_lease-closed (close p fs pid d) (close-closed d) in
      (rw e refl, rw e refl, rw e refl, rw e refl, e)
