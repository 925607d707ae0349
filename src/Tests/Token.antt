-- ===== src/Tests/Token.antt =====
-- The theorem about the owner's token at a concrete start.

use Prim.Native.String.{count}
use excelsior.Common.{
  ℕ, suc, ◌≡◌, ◌≢◌, refl, arith, ap, String, true, false, ◌==◌, if◌then◌else◌, Option, none, some,
  insert, lookup, lookup-insert_self, err,
}
use excelsior.Util.{is_space}
use excelsior.Util.Files.{not_exist}
use excelsior.Engine.Token.{
  OpenAnswer, opened, already_exists, TokenHost, TokenAnswer, owner_path, owner_token,
}
use excelsior.Engine.Token.Plain.{is_plain}
use excelsior.Engine.Token.Stable.{IsTokenHost, owner_token_stable}
use excelsior.Tests.Files.{
  Texts, nothing_stored, in_memory, in_memory-IsFileSystem, permanent, read_text,
}

abbrev open_text : Texts → String → Option String → Texts × OpenAnswer
open_text f path none = (record f { texts = insert path "" f.texts }, opened)
open_text f path (some text) = (f, already_exists)

abbrev host : TokenHost Texts
host = record {
  token_file = "";
  config_dir = some "/home";
  protect_dir = λ f dir. (f, true);
  open_new = λ f path. open_text f path (lookup path f.texts);
  hex_size = λ s. if count s == 64 then some 32 else none;
  new_id = λ i. "0123456789abcdef0123456789abcdef";
}

open_text-opened :
    (f : Texts) (path : String) (found : Option String)
    → (open_text f path found).1 ≡ opened
    → read_text (lookup path (open_text f path found).0.texts) ≡ read_text (some "")
open_text-opened f path none e = ap read_text (lookup-insert_self path "" f.texts)
open_text-opened f path (some text) e = absurd cc

open_text-exists :
    (f : Texts) (path : String) (found : Option String)
    → lookup path f.texts ≡ found
    → (open_text f path found).1 ≡ already_exists
    → read_text (lookup path (open_text f path found).0.texts) ≢ err not_exist
open_text-exists f path none h e = absurd cc
open_text-exists f path (some text) h e = λ missing. absurd (ground (arith, h, missing))

host-IsTokenHost : IsTokenHost in_memory host
unfolding is_plain is_space
host-IsTokenHost = record {
  ids_size = λ i j. refl;
  ids_plain = λ i j. refl;
  open_new_empty = λ f path e. open_text-opened f path (lookup path f.texts) e;
  open_new_exists = λ f path e. open_text-exists f path (lookup path f.texts) refl e;
}

owner_token_stable_example :
    (r : TokenAnswer Texts) × (owner_token in_memory host 2 false nothing_stored ≡ some r)
    × (r.2 ≡ none → (n : ℕ) → owner_token in_memory host (suc n) false r.0 ≡ some (r.0, r.1, none))
unfolding owner_path
owner_token_stable_example =
    owner_token_stable in_memory host in_memory-IsFileSystem host-IsTokenHost
      "/home/excelsior/owner-token" refl (permanent "/home/excelsior/owner-token" refl) false
      nothing_stored
