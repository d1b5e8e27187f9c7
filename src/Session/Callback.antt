-- ===== src/Session/Callback.antt =====
-- callback of src/routes/auth.rs, the return from an identity provider. What it asks of other code
-- (the cookie jar, the address of the callback, the two requests to the provider) is a record of
-- functions; its result is the user of the session cookie and the address that the browser is sent
-- to.
use september.Base.{
  ℕ, Bool, false, not, Option, none, some, List, String, Map, lookup, if◌then◌else◌, ◌>>=◌,
}
use september.Base.Text.{Text, codes, to_lowercase}
use september.Federated.{Result, ok, err}
use september.Worker.{text_eq}
use september.Session.{User, AuthFlowState, validate_state, is_flow_expired, new}

pub data AuthError : Type 0 where
  not_configured : AuthError
  provider_not_found : String → AuthError
  idp_error : String → String → AuthError
  missing_code : AuthError
  invalid_state : AuthError
  flow_expired : AuthError
  token_exchange : Text → AuthError
  user_info : Text → AuthError
  missing_claim : String → AuthError
  internal : Text → AuthError

pub record CallbackQuery : Type 0 where
  pub code : Option String
  pub state : Option String
  pub error : Option String
  pub error_description : Option String

-- A value of the provider's JSON answer: a text, an i64 given by its digits, or another value.
pub data Value : Type 0 where
  text : String → Value
  integer : String → Value
  other : Value

-- What the callback uses of a provider.
pub record OidcProvider : Type 0 where
  pub userinfo_sub_field : String

-- A header that is present and a readable text, that is not readable, or that is absent.
pub data Header : Type 0 where
  readable : Text → Header
  unreadable : Header
  absent : Header

ssl_on : Header → Bool
ssl_on (readable ssl) = text_eq (to_lowercase ssl) (codes "on")
ssl_on unreadable = false
ssl_on absent = false

unfoldable pub detect_https : Header → Header → Bool
unfolding ssl_on
detect_https (readable proto) ssl = text_eq (to_lowercase proto) (codes "https")
detect_https unreadable ssl = ssl_on ssl
detect_https absent ssl = ssl_on ssl

-- `get_provider`, the flow cookie with its decoding, `build_redirect_uri`, the two requests and the
-- clock.
pub record Callback : Type 0 where
  pub get_provider : String → Option OidcProvider
  pub flow_cookie : Option String
  pub decode_flow : String → Option AuthFlowState
  pub build_redirect_uri : String → Bool → Result Text Text
  pub exchange_code_for_tokens : OidcProvider → String → Text → String → Result String AuthError
  pub fetch_user_info : OidcProvider → String → Result (Map Value) AuthError
  pub session_lifetime : ℕ
  pub now : ℕ

abbrev pub as_str : Value → Option String
as_str (text s) = some s
as_str (integer n) = none
as_str other = none

abbrev pub as_i64 : Value → Option String
as_i64 (text s) = none
as_i64 (integer n) = some n
as_i64 other = none

abbrev pub or_else : Option String → Option String → Option String
or_else (some s) next = some s
or_else none next = next

-- The chain of the source: the text, or else the empty text for a number, or else its digits.
unfoldable pub sub_claim : String → Map Value → Option String
sub_claim field info =
    or_else
      (or_else (lookup field info >>= as_str)
        (lookup field info >>= as_i64 >>= λ n. some String.[]))
      (lookup field info >>= as_i64)

unfoldable pub claim : String → Map Value → Option String
claim field info = lookup field info >>= as_str

abbrev pub unwrap_or : Option String → String → String
unwrap_or none default = default
unwrap_or (some s) default = s

-- let x = o.ok_or(error)?;
abbrev pub require {ℓ κ} :
    {A : Type ℓ} {B : Type κ} → Option A → AuthError → (A → Result B AuthError) → Result B AuthError
require none error next = err error
require (some a) error next = next a

-- let x = r?;
abbrev pub attempt {ℓ κ} :
    {A : Type ℓ} {B : Type κ} → Result A AuthError → (A → Result B AuthError) → Result B AuthError
attempt (ok a) next = next a
attempt (err e) next = err e

abbrev pub no_error : Option String → Option String → Result {0, 0} Unit AuthError
no_error none description = ok tt
no_error (some error) description = err (idp_error error (unwrap_or description "Unknown error"))

abbrev pub redirect_uri : Result Text Text → Result Text AuthError
redirect_uri (ok uri) = ok uri
redirect_uri (err message) = err (internal message)

pub record LoggedIn : Type 0 where
  pub user : User
  pub redirect_url : String

-- The new session of a user.
abbrev pub new_session : Callback → String → AuthFlowState → List ℕ → Map Value → String → LoggedIn
new_session around provider flow token info sub = record {
  user =
      new sub (claim "name" info) (claim "email" info) provider around.session_lifetime around.now
        token;
  redirect_url = unwrap_or flow.return_to "/";
}

unfoldable pub session_of :
    Callback
    → String
    → AuthFlowState
    → List ℕ
    → OidcProvider
    → Map Value
    → Result LoggedIn AuthError
session_of around provider flow token p info =
    require (sub_claim p.userinfo_sub_field info) (missing_claim p.userinfo_sub_field)
      (λ sub. ok (new_session around provider flow token info sub))

-- The two requests to the provider.
unfoldable pub ask_provider :
    Callback
    → String
    → String
    → AuthFlowState
    → List ℕ
    → OidcProvider
    → Text
    → Result LoggedIn AuthError
ask_provider around provider code flow token p uri =
    attempt (around.exchange_code_for_tokens p code uri flow.pkce_verifier) (λ access_token.
      attempt (around.fetch_user_info p access_token) (session_of around provider flow token p))

-- From the flow state on.
unfoldable pub finish_login :
    Callback → String → Bool → String → String → AuthFlowState → List ℕ → Result LoggedIn AuthError
finish_login around provider use_https code state flow token =
    if not (validate_state flow state)
    then err invalid_state
    else if is_flow_expired flow around.now
    then err flow_expired
    else require (around.get_provider provider) (provider_not_found provider) (λ p.
      attempt (redirect_uri (around.build_redirect_uri provider use_https))
        (ask_provider around provider code flow token p))

-- `configured` tells whether the state has an OIDC manager; `token` is the new random token of the
-- user.
unfoldable pub callback :
    Callback → Bool → String → Header → Header → CallbackQuery → List ℕ → Result LoggedIn AuthError
callback around configured provider proto ssl query token =
    if not configured
    then err not_configured
    else attempt (no_error query.error query.error_description) (λ u.
      require query.code missing_code (λ code. require query.state invalid_state (λ state.
        require around.flow_cookie invalid_state (λ cookie.
          require (around.decode_flow cookie) invalid_state (λ flow.
            finish_login around provider (detect_https proto ssl) code state flow token)))))
