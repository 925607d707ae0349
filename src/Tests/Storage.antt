-- ===== src/Tests/Storage.antt =====
-- The theorems about stores, identifiers and settings at concrete inputs.

use excelsior.Common.{
  ◌≡◌, ◌≤◌, refl, String, true, ◌⊎◌, List, [], ◌∷◌, some, ok, err, str_eq, if◌then◌else◌,
}
use excelsior.Util.{trim_space}
use excelsior.Session.Types.{Record, session_not_found, empty_session_id, invalid_session_id}
use excelsior.Session.Id.{sanitize_id}
use excelsior.Session.Id.Safe.{is_name, sanitize_id-name}
use excelsior.Session.Memory.{new_memory_store, save, load, latest}
use excelsior.Session.Memory.Contract.{
  StoreCall, saves, deletes, run_store, first_set, created_of, changed_at, load-save, latest_newest,
}
use excelsior.Config.{Settings}

abbrev chat : Record
chat = record { id = " chat-1 "; title = "Chat"; created_at = 0; updated_at = 0; messages = [] }

load-save_example : load (save new_memory_store 7 chat).0 "chat-1" ≡ (
    if str_eq "chat-1" "chat-1"
    then ok (record {
      id = "chat-1";
      title = "Chat";
      created_at = first_set 0 (first_set (created_of (load new_memory_store " chat-1 ")) 7);
      updated_at = 7;
      messages = [];
    })
    else load new_memory_store "chat-1")
unfolding sanitize_id new_memory_store
load-save_example = load-save new_memory_store 7 chat "chat-1" "chat-1" "chat-1" refl refl

abbrev history : List StoreCall
history = saves 7 chat ∷ saves 9 (record chat { id = "chat-2" }) ∷ deletes "chat-1" ∷ []

latest_newest_example :
    let m = run_store new_memory_store history in
    (((id : String) (rec : Record) → ¬ (load m id ≡ ok rec)) × (latest m ≡ err session_not_found))
    ⊎ ((newest : Record) × (latest m ≡ ok newest)
        × (load m newest.id ≡ ok newest)
        × ((id : String) (rec : Record) → load m id ≡ ok rec → changed_at rec ≤ changed_at newest))
latest_newest_example = latest_newest history

sanitize_id-name_example :
    (sanitize_id " chat-1 " ≡ (
      if str_eq (trim_space " chat-1 ") ""
      then err empty_session_id
      else if is_name (trim_space " chat-1 ")
      then ok (trim_space " chat-1 ")
      else err invalid_session_id))
    × ((safe : String) → sanitize_id " chat-1 " ≡ ok safe → sanitize_id safe ≡ ok safe)
sanitize_id-name_example = sanitize_id-name " chat-1 "

abbrev everything : Settings
everything = record { permission = "Deny"; allow_all = some true }

-- Letters other than those of the modes stay as they are.
abbrev lower : String → String
lower s = if str_eq s "Deny" then "deny" else s
