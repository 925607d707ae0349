-- ===== src/Tests/Disk.antt =====
-- The theorems about files, leases and the store on disk at concrete inputs.

use Prim.Native.String
use excelsior.Common.{
  ◌≡◌, refl, sym, ap, subst, String, Bool, true, false, ◌==◌, ◌&&◌, ◌⊎◌, if◌then◌else◌, str_eq,
  eq_iff, List, [], ◌∷◌, none, some, ok, err, lookup, insert, arith, Bool-cases, inl, inr,
}
use excelsior.Llm.{Message}
use excelsior.Util.{trim_space}
use excelsior.Util.Atomic.{WriteError, write_atomic}
use excelsior.Util.Atomic.Whole.{write_atomic_whole}
use excelsior.Session.Types.{Record, SessionError, store_closed}
use excelsior.Session.Id.{sanitize_id}
use excelsior.Session.Lease.{acquire_store_lease, release_store_lease, lease_key}
use excelsior.Session.Lease.Host.{Host, LeaseCall, acquires, releases, run_leases}
use excelsior.Session.Lease.Exclusive.{one_holder}
use excelsior.Session.Disk.Lines.{Codec, or_earlier, last_record}
use excelsior.Session.Disk.Reading.{IsLineCodec, has_newline, last_record-append}
use excelsior.Session.Disk.Owner.{Disk, ensure_lease, path, close}
use excelsior.Session.Disk.{save, load, list, delete, stamped}
use excelsior.Session.Disk.RoundTrip.{read_back, load-save_disk}
use excelsior.Session.Disk.Closing.{close_refuses}
use excelsior.Tests.Base.{platform}
use excelsior.Tests.Files.{
  Texts, nothing_stored, in_memory, in_memory-IsFileSystem, permanent, owner, in_memory-IsLocking,
}

write_atomic_whole_example :
    let r = write_atomic in_memory "/s/a" "new" nothing_stored in
    ((r.1 ≡ none)
      × (in_memory.read_file r.0 "/s/a" ≡ ok "new")
      × (in_memory.read_file r.0 "/s/b" ≡ in_memory.read_file nothing_stored "/s/b"))
    ⊎ ((e : WriteError) × (r.1 ≡ some e)
        × (in_memory.read_file r.0 "/s/a" ≡ in_memory.read_file nothing_stored "/s/a")
        × (in_memory.read_file r.0 "/s/b" ≡ in_memory.read_file nothing_stored "/s/b"))
write_atomic_whole_example =
    write_atomic_whole in_memory in_memory-IsFileSystem "/s/a" "new" (permanent "/s/a" refl)
      nothing_stored "/s/b" (permanent "/s/b" refl) refl

-- The second process is refused while the first one has the lease, and gets it afterwards.
abbrev lease_calls : List (LeaseCall platform in_memory)
lease_calls = acquires 1 "/s" ∷ acquires 2 "/s" ∷ releases 1 "/s" ∷ acquires 2 "/s" ∷ []

abbrev host : Host platform in_memory
host =
    run_leases platform in_memory lease_calls (record { files = nothing_stored; tables = λ _. [] })

one_holder_example : lookup "/s" (host.tables 1) ≡ none
unfolding run_leases acquire_store_lease lease_key lookup insert release_store_lease
one_holder_example =
    one_holder platform in_memory owner in_memory-IsLocking nothing_stored lease_calls 2 1 "/s"
      (record { path = "/s/.owner.lock"; refs = 1 }) refl refl

abbrev chat : Record
chat = record { id = "chat-1"; title = "Chat"; created_at = 0; updated_at = 0; messages = [] }

-- An encoder that knows one record, and refuses every other one.
abbrev no_messages : List Message → Bool
no_messages [] = true
no_messages (m ∷ ms) = false

abbrev is_known : Record → Bool
is_known rec =
    str_eq rec.id "chat-1"
    && str_eq rec.title "Chat"
    && (rec.created_at == 7)
    && (rec.updated_at == 7)
    && no_messages rec.messages

abbrev codec : Codec
codec = record {
  marshal = λ rec. if is_known rec then some "{1}" else none;
  unmarshal = λ line. if str_eq line "{1}" then some (stamped 7 chat) else none;
}

no_messages_lem : (ms : List Message) → no_messages ms ≡ true → ms ≡ []
no_messages_lem [] h = refl
no_messages_lem (m ∷ ms) h = absurd cc

known : (rec : Record) → is_known rec ≡ true → stamped 7 chat ≡ rec
unfolding stamped
known rec h =
    ground (arith, eq_iff rec.id "chat-1", eq_iff rec.title "Chat", no_messages_lem rec.messages, h)

encoded :
    (rec : Record) (line : String)
    → codec.marshal rec ≡ some line
    → (is_known rec ≡ true) × ("{1}" ≡ line)
encoded rec line e = elim (Bool-cases (is_known rec)) [
  | inl h ↦ (h, ground (arith, e, h))
  | inr h ↦ absurd (ground (arith, e, h))
]

codec-IsLineCodec : IsLineCodec codec
unfolding has_newline trim_space
codec-IsLineCodec = record {
  reads_back = λ rec line e.
      subst (λ x. codec.unmarshal x ≡ some rec) (encoded rec line e).1
        (ap some (known rec (encoded rec line e).0));
  one_line = λ rec line e. subst (λ x. has_newline x ≡ false) (encoded rec line e).1 refl;
  trimmed = λ rec line e. subst (λ x. trim_space x ≡ x) (encoded rec line e).1 refl;
  opened = λ rec line e. ("1}", sym (encoded rec line e).1);
}

abbrev disk : Disk Texts
disk = record {
  files = nothing_stored;
  leases = [];
  dir_store = record { dir = "/s"; lease_err = none; holds = true; closed = false };
}

load-save_disk_example :
    let r = save platform in_memory codec 1 disk 7 chat in
    let before = (load platform in_memory codec 1 disk "chat-1").1 in
    let after = (load platform in_memory codec 1 r.0 "chat-1").1 in
    ((r.1 ≡ none)
      × (after ≡ (
          if str_eq "/s/chat-1.jsonl" "/s/chat-1.jsonl"
          then ok (read_back 7 "chat-1" chat)
          else before)))
    ⊎ ((e : SessionError) × (r.1 ≡ some e) × (after ≡ before))
unfolding path sanitize_id
load-save_disk_example =
    load-save_disk platform in_memory codec 1 in_memory-IsFileSystem codec-IsLineCodec disk 7 chat
      "chat-1" "/s/chat-1.jsonl" "/s/chat-1.jsonl" refl refl refl refl
      (permanent "/s/chat-1.jsonl" refl) (permanent "/s/chat-1.jsonl" refl)

close_refuses_example :
    let c = close platform in_memory 1 disk in
    (save platform in_memory codec 1 c 7 chat ≡ (c, some store_closed))
    × (load platform in_memory codec 1 c "chat-1" ≡ (c, err store_closed))
    × (list platform in_memory codec 1 c ≡ (c, err store_closed))
    × (delete platform in_memory codec 1 c "chat-1" ≡ (c, some store_closed))
    × (ensure_lease platform in_memory 1 c ≡ (c, some store_closed))
close_refuses_example = close_refuses platform in_memory codec 1 disk 7 chat "chat-1"

last_record-append_example :
    last_record codec (String.◌++◌ "{1}" (String.◌++◌ "\n" "{2"))
    ≡ or_earlier (last_record codec "{2") (last_record codec "{1}")
last_record-append_example = last_record-append codec "{1}" "{2"

-- The cut-off line is passed over.
torn_line : last_record codec "{1}\n{2" ≡ some (stamped 7 chat)
unfolding last_record trim_space
torn_line = refl

-- A save that works, and what is read after it.
saved_and_read : (save platform in_memory codec 1 disk 7 chat).1 ≡ none
unfolding save ensure_lease path lookup insert
saved_and_read = refl
