-- ===== src/Tests/Provider.antt =====
-- The theorems about the provider client at concrete inputs.

use excelsior.Common.{◌≡◌, refl, List, [], ◌∷◌, map}
use excelsior.Llm.{Message}
use excelsior.Llm.Client.{
  Roles, ProviderMessage, text_part, tool_result_part, from_provider_messages, to_provider_messages,
}
use excelsior.Llm.Client.RoundTrip.{IsNamed, carried, from-to_provider_messages}
use excelsior.Llm.Errors.{
  server_unavailable, sentinel_eq, api_error, classify_status, new_goai_error,
}
use excelsior.Llm.Errors.Classes.{client_is, api_error-class}
use excelsior.Tests.Base.{hello}

abbrev roles : Roles
roles = record { system = "system"; user = "user"; assistant = "assistant"; tool = "tool" }

roles-IsNamed : IsNamed roles
roles-IsNamed = record {
  system_named = refl;
  user_named = refl;
  assistant_named = refl;
  tool_named = refl;
}

abbrev noon : Message
noon = record hello { role = "tool"; content = "noon"; tool_call_id = "1"; name = "get_time" }

abbrev sent : List ProviderMessage
sent =
    (record { role = "user"; content = text_part "hello" ∷ [] })
    ∷ (record { role = "tool"; content = tool_result_part "1" "get_time" "noon" ∷ [] })
    ∷ []

from-to_provider_messages_example : from_provider_messages sent ≡ map carried (hello ∷ noon ∷ [])
unfolding to_provider_messages
from-to_provider_messages_example =
    from-to_provider_messages roles (hello ∷ noon ∷ []) sent roles-IsNamed refl

api_error-class_example :
    client_is (new_goai_error "m" (api_error 503 "down")) server_unavailable
    ≡ sentinel_eq (classify_status 503) server_unavailable
api_error-class_example = api_error-class "m" 503 "down" server_unavailable
