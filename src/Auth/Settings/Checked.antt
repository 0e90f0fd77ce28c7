-- ===== src/Auth/Settings/Checked.antt =====
-- What the settings routes send to the gateway.
use Prim.Native.Char.{code}
use Prim.Native.String.{[], ◌∷◌}
use pact_web.Prelude.{
  ◌≡◌, refl, ap, true, ltb, Bool-cases, inl, inr, Option, none, some, [], String, arith,
}
use pact_web.Prelude.Text.{truthy, ◌<>◌}
use pact_web.Prelude.Text.Laws.{truthy-cons}
use pact_web.Prelude.Json.{Json, null, bool, num, str, arr, obj}
use pact_web.Prelude.Result.{Result, ok, err, ◌>>=◌, Each, Each-bind}
use pact_web.Auth.Client.{Answer}
use pact_web.Auth.Client.Requests.{SessionCall}
use pact_web.Auth.Client.Replies.{RawReply}
use pact_web.Auth.Routes.{error, respond, ApiResponse, field_of, full_string, text_of, object_of}
use pact_web.Auth.MfaVerify.{is_six_digits, utf16_length}
use pact_web.Auth.Settings.{SettingsRoute, prepared, answered, responded, settings_route}
use pact_web.Auth.Settings.Gate.{body_of, required, label_of}
use pact_web.Auth.Settings.Labels.{IsFull, IsLabel, utf16_length-full, enrolled_label-IsLabel}
use pact_web.Auth.Settings.EnrollConfirm
use pact_web.Auth.Settings.EnrollConfirm.{confirm_with}
use pact_web.Auth.Settings.RevokeFactor
use pact_web.Auth.Settings.BeginPasskey
use pact_web.Auth.Settings.BeginPasskey.{first_units, enrolled_label}
use pact_web.Auth.Settings.FinishPasskey
use pact_web.Auth.Settings.FinishPasskey.{finish_with}
use pact_web.Auth.Settings.RenamePasskey
use pact_web.Auth.Settings.RenamePasskey.{rename_to}
use pact_web.Auth.Settings.DeletePasskey
use pact_web.Auth.Settings.UnlinkIdentity
use pact_web.Auth.Settings.UnlinkIdentity.{unlink}
use pact_web.Auth.Providers.{is_allowed_provider}

-- The arguments of a call are of the form that its endpoint takes.
unfoldable pub IsChecked : SessionCall → Type 0
IsChecked (SessionCall.confirm_totp_enrollment factor_id code) =
    IsFull factor_id × (is_six_digits code ≡ true)
IsChecked (SessionCall.revoke_mfa_factor factor_id) = IsFull factor_id
IsChecked (SessionCall.begin_passkey_registration label) = IsLabel label
IsChecked (SessionCall.finish_passkey_registration ceremony_id attestation) = IsFull ceremony_id
IsChecked (SessionCall.rename_passkey passkey_id label) = IsFull passkey_id × IsLabel label
IsChecked (SessionCall.delete_passkey passkey_id) = IsFull passkey_id
IsChecked (SessionCall.unlink_identity provider) = is_allowed_provider provider ≡ true
IsChecked call = Unit

abbrev pub IsRefusal : ApiResponse → Type 0
IsRefusal response = (response.status ≡ 400) × (response.cookies ≡ [])

-- A refusal, or a checked call.
abbrev pub IsPrepared : Result ApiResponse SessionCall → Type 0
IsPrepared p = Each IsRefusal IsChecked p

pub body_of-IsPrepared :
    (request : Option Json) → Each IsRefusal (λ body. Unit {0}) (body_of request)
body_of-IsPrepared none = (refl, refl)
body_of-IsPrepared (some null) = (refl, refl)
body_of-IsPrepared (some (bool b)) = tt
body_of-IsPrepared (some (num n)) = tt
body_of-IsPrepared (some (str s)) = tt
body_of-IsPrepared (some (arr xs)) = tt
body_of-IsPrepared (some (obj fs)) = tt

abbrev HasFull : Option String → Type 0
HasFull none = Unit
HasFull (some s) = IsFull s

full_string-HasFull : (v : Option Json) → HasFull (full_string v)
full_string-HasFull none = tt
full_string-HasFull (some null) = tt
full_string-HasFull (some (bool b)) = tt
full_string-HasFull (some (num n)) = tt
full_string-HasFull (some (str [])) = tt
full_string-HasFull (some (str (c ∷ s))) = truthy-cons c s
full_string-HasFull (some (arr xs)) = tt
full_string-HasFull (some (obj fs)) = tt

required_of :
    (key : String) (v : Option String)
    → HasFull v
    → Each IsRefusal IsFull (elim v [
      | none ↦ err (respond 400 (error (key <> " is required") none))
      | some text ↦ ok text
    ])
required_of key none h = (refl, refl)
required_of key (some text) h = h

pub required-IsFull : (key : String) (body : Json) → Each IsRefusal IsFull (required key body)
required-IsFull key body =
    required_of key (full_string (field_of key body)) (full_string-HasFull (field_of key body))

rename_to-IsPrepared :
    (passkey_id label : String) → IsFull passkey_id → IsPrepared (rename_to passkey_id label)
unfolding rename_to IsLabel IsChecked
rename_to-IsPrepared passkey_id label h = elim (Bool-cases (truthy label)) [
  | inl full ↦ elim (Bool-cases (ltb 64 (utf16_length label))) [
    | inl long ↦ rw (full, long) (refl, refl)
    | inr short ↦ rw (full, short) (h, (utf16_length-full label full, ground arith))
  ]
  | inr empty ↦ rw empty (refl, refl)
]

confirm_with-IsPrepared :
    (factor_id : String) (text : Option String)
    → IsFull factor_id
    → IsPrepared (confirm_with factor_id text)
unfolding confirm_with IsChecked
confirm_with-IsPrepared factor_id none h = (refl, refl)
confirm_with-IsPrepared factor_id (some text) h = elim (Bool-cases (is_six_digits text)) [
  | inl e ↦ rw e (h, e)
  | inr e ↦ rw e (refl, refl)
]

finish_with-IsPrepared :
    (ceremony_id : String) (attestation : Option Json)
    → IsFull ceremony_id
    → IsPrepared (finish_with ceremony_id attestation)
unfolding finish_with IsChecked
finish_with-IsPrepared ceremony_id none h = (refl, refl)
finish_with-IsPrepared ceremony_id (some attestation) h = h

unlink-IsPrepared : (provider : Option String) → IsPrepared (unlink provider)
unfolding unlink IsChecked
unlink-IsPrepared none = (refl, refl)
unlink-IsPrepared (some provider) = elim (Bool-cases (is_allowed_provider provider)) [
  | inl e ↦ rw e e
  | inr e ↦ rw e (refl, refl)
]

-- With a body, what a route asks for.
with_body :
    (request : Option Json) (f : Json → Result ApiResponse SessionCall)
    → ((body : Json) → IsPrepared (f body))
    → IsPrepared (body_of request >>= f)
with_body request f h =
    Each-bind IsRefusal (λ body. Unit {0}) IsChecked (body_of request) f
      (body_of-IsPrepared request) (λ body done. h body)

with_required :
    (key : String) (body : Json) (f : String → Result ApiResponse SessionCall)
    → ((text : String) → IsFull text → IsPrepared (f text))
    → IsPrepared (required key body >>= f)
with_required key body f h =
    Each-bind IsRefusal IsFull IsChecked (required key body) f (required-IsFull key body) h

pub prepared-IsPrepared :
    (r : SettingsRoute) (request : Option Json) → IsPrepared (prepared r request)
unfolding IsChecked EnrollConfirm.prepare RevokeFactor.prepare BeginPasskey.prepare
    FinishPasskey.prepare RenamePasskey.prepare DeletePasskey.prepare UnlinkIdentity.prepare
prepared-IsPrepared SettingsRoute.enroll_begin request = tt
prepared-IsPrepared SettingsRoute.enroll_confirm request = with_body request _ λ body.
    with_required "factorId" body _
      λ factor_id h. confirm_with-IsPrepared factor_id (full_string (field_of "code" body)) h
prepared-IsPrepared SettingsRoute.revoke_factor request =
    with_body request _ λ body. with_required "factorId" body _ λ factor_id h. h
prepared-IsPrepared SettingsRoute.recovery_codes request = tt
prepared-IsPrepared SettingsRoute.begin_passkey request =
    with_body request _ λ body. enrolled_label-IsLabel (label_of body)
prepared-IsPrepared SettingsRoute.finish_passkey request = with_body request _ λ body.
    with_required "ceremonyId" body _ λ ceremony_id h.
      finish_with-IsPrepared ceremony_id (object_of (field_of "attestation" body)) h
prepared-IsPrepared SettingsRoute.rename_passkey request = with_body request _ λ body.
    with_required "passkeyId" body _
      λ passkey_id h. rename_to-IsPrepared passkey_id (label_of body) h
prepared-IsPrepared SettingsRoute.delete_passkey request =
    with_body request _ λ body. with_required "passkeyId" body _ λ passkey_id h. h
prepared-IsPrepared SettingsRoute.unlink_identity request =
    with_body request _ λ body. unlink-IsPrepared (text_of (field_of "provider" body))

-- Of two gateways, the answers to one token are the same for checked calls.
abbrev Agree :
    (String → SessionCall → Answer RawReply)
    → (String → SessionCall → Answer RawReply)
    → String
    → Type 0
Agree g h token = (call : SessionCall) → IsChecked call → g token call ≡ h token call

asks_prepared :
    (r : SettingsRoute) (g h : String → SessionCall → Answer RawReply) (token : String)
    (p : Result ApiResponse SessionCall)
    → IsPrepared p
    → Agree g h token
    → responded r g token p ≡ responded r h token p
asks_prepared r g h token (err refusal) w agree = refl
asks_prepared r g h token (ok call) w agree = ap (answered r) (agree call w)

-- The response of a settings route depends only on what the gateway answers to checked calls with
-- the session token of the cookie, which is not empty.
pub settings_route-asks :
    (r : SettingsRoute) (g h : String → SessionCall → Answer RawReply) (session : Option String)
    (request : Option Json)
    → ((token : String) → session ≡ some token → truthy token ≡ true → Agree g h token)
    → settings_route r g session request ≡ settings_route r h session request
unfolding settings_route
settings_route-asks r g h none request agree = refl
settings_route-asks r g h (some token) request agree = elim (Bool-cases (truthy token)) [
  | inl full ↦ rw full (
      asks_prepared r g h token (prepared r request) (prepared-IsPrepared r request)
        (agree token refl full))
  | inr empty ↦ rw empty refl
]
