-- ===== src/Sessions.antt =====
-- internal/sessions/service.go: session operations over any store.

use excelsior.Common.{
  ℕ, String, Bool, not, ◌&&◌, ◌||◌, if◌then◌else◌, str_eq, List, [], ◌∷◌, Option, some, Result, ok,
  err,
}
use excelsior.Llm.{Message}
use excelsior.Util.{trim_space, truncate}
use excelsior.Session.Types.{Record, SessionMeta, SessionError, Store}

abbrev is_placeholder : String → Bool
is_placeholder title = str_eq title "" || str_eq title "(empty)"

-- The content of the first user message that is not blank, and `title` where there is none.
first_user_text : String → List Message → String
first_user_text title [] = title
first_user_text title (m ∷ ms) =
    if str_eq m.role "user" && not (str_eq (trim_space m.content) "")
    then trim_space m.content
    else first_user_text title ms

unfoldable pub title_of : List Message → String → String
unfolding first_user_text
title_of messages custom_title =
    let custom = trim_space custom_title in
    let title = if is_placeholder custom then first_user_text custom messages else custom in
    truncate (if is_placeholder title then "New Chat" else title) 40

module _ {S : Type 0} (store : Store S) where
  unfoldable pub create : ℕ → String → String → S → S × Option SessionError
  create now id title s =
      store.save s now
        (record { id = id; title = title; created_at = now; updated_at = 0; messages = [] })

  unfoldable pub delete : String → S → S × Option SessionError
  delete id s = store.delete s id

  save_title : ℕ → String → S × Result SessionError Record → S × Option SessionError
  save_title now title (s, err e) = (s, some e)
  save_title now title (s, ok rec) = store.save s now (record rec { title = title })

  unfoldable pub rename : ℕ → String → String → S → S × Option SessionError
  unfolding save_title
  rename now id title s = save_title now title (store.load s id)

  abbrev loaded_title : Result SessionError Record → String
  loaded_title (ok rec) = title_of rec.messages rec.title
  loaded_title (err e) = "New Chat"

  -- A title is read from the session where the summary has none.
  list_title : SessionMeta → S → S × SessionMeta
  list_title meta s =
      if not (str_eq (trim_space meta.title) "") && not (str_eq meta.title "(empty)")
      then (s, record meta { title = truncate (trim_space meta.title) 40 })
      else ((store.load s meta.id).0, record meta { title = loaded_title (store.load s meta.id).1 })

  list_titles : List SessionMeta → S → S × List SessionMeta
  unfolding list_title
  list_titles [] s = (s, [])
  list_titles (meta ∷ metas) s =
      let (s', titled) = list_title meta s in
      let (s'', rest) = list_titles metas s' in (s'', titled ∷ rest)

  with_titles :
      S × Result SessionError (List SessionMeta) → S × Result SessionError (List SessionMeta)
  unfolding list_titles
  with_titles (s, err e) = (s, err e)
  with_titles (s, ok metas) = let (s', titled) = list_titles metas s in (s', ok titled)

  unfoldable pub list : S → S × Result SessionError (List SessionMeta)
  unfolding with_titles
  list s = with_titles (store.list s)
