-- ===== src/Authenticator/Model.antt =====
-- The data of the authenticator service (models.go). `J` is decoded JSON, the source's
-- `map[string]any`, which this part of the code passes on unread. The status strings are the
-- constructors of two enumerations; methods, which callers name, stay texts.
use x_auth_site.Base.{ℕ, String, Bool, Option, List, ◌||◌, str_eq}

abbrev pub method_fido2 : String
method_fido2 = "fido2"

abbrev pub method_totp : String
method_totp = "totp"

abbrev pub method_push : String
method_push = "push"

abbrev pub method_sms : String
method_sms = "sms"

abbrev pub method_magic_link : String
method_magic_link = "magic_link"

unfoldable pub is_valid_method : String → Bool
is_valid_method m =
    str_eq m method_fido2
    || (str_eq m method_totp
        || (str_eq m method_push || (str_eq m method_sms || str_eq m method_magic_link)))

pub data AuthenticatorStatus : Type 0 where
  active disabled : AuthenticatorStatus

pub data ChallengeStatus : Type 0 where
  pending completed failed expired : ChallengeStatus

abbrev pub second : ℕ
second = 1_000_000_000

-- Five minutes.
abbrev pub challenge_ttl : ℕ
challenge_ttl = 300_000_000_000

abbrev pub max_challenge_attempts : ℕ
max_challenge_attempts = 3

pub record ChallengeRequest : Type 0 where
  pub user_id : String
  pub methods : List String

pub record Authenticator (J : Type 0) : Type 0 where
  pub id : String
  pub tenant_id : String
  pub user_id : String
  pub method : String
  pub metadata : J
  pub status : AuthenticatorStatus
  pub created_at : ℕ
  pub updated_at : ℕ

pub record Challenge : Type 0 where
  pub id : String
  pub tenant_id : String
  pub user_id : String
  pub method : String
  pub authenticator_id : String
  pub prompt : String
  pub status : ChallengeStatus
  pub attempts : ℕ
  pub created_at : ℕ
  pub expires_at : ℕ
  pub completed_at : Option ℕ
  pub last_attempt_at : Option ℕ
  pub options_json : String
  pub session_data : List ℕ
