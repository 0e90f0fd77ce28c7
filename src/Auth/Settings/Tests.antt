-- ===== src/Auth/Settings/Tests.antt =====
-- Requests of the settings page.
use pact_web.Prelude.{◌≡◌, refl, if◌then◌else◌, Option, some, String}
use pact_web.Prelude.Text.{truthy}
use pact_web.Prelude.Json.{Json, obj, str, end, field}
use pact_web.Auth.Client.{Answer, failure, not_json, success, empty}
use pact_web.Auth.Client.Requests.{SessionCall}
use pact_web.Auth.Client.Replies.{RawReply}
use pact_web.Auth.Settings.{SettingsRoute, settings_route}
use pact_web.Auth.Settings.Checked.{settings_route-asks}
use pact_web.Auth.Settings.Outcome.{Settles, gate, settings_route-Settles}

abbrev rename_body : Option Json
rename_body = some (obj (field "passkeyId" (str "k1") (field "label" (str " laptop ") end)))

-- A gateway that refuses every session.
abbrev refusing : String → SessionCall → Answer RawReply
refusing token call = failure 401 not_json

-- It differs for an empty token, about which no route asks.
abbrev obliging : String → SessionCall → Answer RawReply
obliging token call = if truthy token then failure 401 not_json else success 200 empty

settings_route-asks_example :
    settings_route SettingsRoute.rename_passkey refusing (some "s1") rename_body
    ≡ settings_route SettingsRoute.rename_passkey obliging (some "s1") rename_body
settings_route-asks_example =
    settings_route-asks SettingsRoute.rename_passkey refusing obliging (some "s1") rename_body
      (λ token given full call checked. rw full refl)

settings_route-Settles_example :
    Settles
      (settings_route SettingsRoute.rename_passkey refusing (some "s1") rename_body)
      (gate SettingsRoute.rename_passkey refusing (some "s1") rename_body)
settings_route-Settles_example =
    settings_route-Settles SettingsRoute.rename_passkey refusing (some "s1") rename_body
