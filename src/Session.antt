-- ===== src/Session.antt =====
-- Sessions of src/oidc/session.rs: `User` and `AuthFlowState`, with the seconds of the system clock
-- as an argument `now`, the cookie check of src/middleware.rs and the return address of
-- src/routes/auth.rs. A clock before the epoch, at which `unwrap` panics, is not modelled.
pub mod Expiry
pub mod Csrf
pub mod Redirect
pub mod Callback
pub mod Login
mod Examples
use september.Base.{
  ℕ, zero, suc, ◌+◌, ◌-◌, ◌/◌, Bool, true, false, not, ◌&&◌, ◌||◌, Option, none, some, List, [],
  ◌∷◌, String, str_eq, ◌==◌, leb, ltb, if◌then◌else◌, add64, length,
}
use Prim.Native.Nat.{bit_or, bit_xor}

pub record User : Type 0 where
  pub sub : String
  pub name : Option String
  pub email : Option String
  pub provider : String
  pub expires_at : ℕ
  -- The bytes of the token.
  pub csrf_token : List ℕ

-- `token` stands for the random token of generate_csrf_token.
unfoldable pub new : String → Option String → Option String → String → ℕ → ℕ → List ℕ → User
new sub name email provider lifetime now token = record {
  sub = sub;
  name = name;
  email = email;
  provider = provider;
  expires_at = add64 now lifetime;
  csrf_token = token;
}

unfoldable pub is_expired : User → ℕ → Bool
is_expired self now = leb self.expires_at now

unfoldable pub should_refresh : User → ℕ → ℕ → Bool
should_refresh self lifetime now =
    let refresh_threshold = lifetime / 5 in
    let remaining = self.expires_at - now in ltb remaining refresh_threshold

unfoldable pub refresh : User → ℕ → ℕ → User
refresh self lifetime now = record self { expires_at = add64 now lifetime }

unfoldable pub display_name : User → String
display_name self = elim self.name [
  | some name ↦ name
  | none ↦ elim self.email [ some email ↦ email | none ↦ self.sub ]
]

-- The fold over the zipped bytes.
pub fold_differences : ℕ → List ℕ → List ℕ → ℕ
fold_differences acc [] token = acc
fold_differences acc (a ∷ own) [] = acc
fold_differences acc (a ∷ own) (b ∷ token) = fold_differences (bit_or acc (bit_xor a b)) own token

unfoldable pub validate_csrf : User → List ℕ → Bool
unfolding fold_differences
validate_csrf self token =
    if not (length self.csrf_token == length token)
    then false
    else fold_differences 0 self.csrf_token token == 0

pub record AuthFlowState : Type 0 where
  pub csrf_token : String
  pub pkce_verifier : String
  pub return_to : Option String
  pub expires_at : ℕ

unfoldable pub new_flow : String → String → Option String → ℕ → AuthFlowState
new_flow csrf_token pkce_verifier return_to now = record {
  csrf_token = csrf_token;
  pkce_verifier = pkce_verifier;
  return_to = return_to;
  expires_at = add64 now 600;
}

unfoldable pub is_flow_expired : AuthFlowState → ℕ → Bool
is_flow_expired self now = leb self.expires_at now

unfoldable pub validate_state : AuthFlowState → String → Bool
validate_state self state = str_eq self.csrf_token state

-- extract_user_from_cookie: `cookie` is the session cookie of the jar, and `decode` the
-- deserialisation of its value, which fails on a malformed one.
unfoldable pub extract_user_from_cookie :
    (String → Option User) → Option String → ℕ → ℕ → Option User × Bool
extract_user_from_cookie decode none session_lifetime now = (none, false)
extract_user_from_cookie decode (some cookie) session_lifetime now = elim (decode cookie) [
  | none ↦ (none, false)
  | some user ↦
      if is_expired user now
      then (none, false)
      else (some user, should_refresh user session_lifetime now)
]

pub record Cookie : Type 0 where
  pub name : String
  pub value : String
  pub path : Option String
  pub http_only : Bool
  pub same_site_lax : Bool
  pub max_age : Option ℕ

-- PrivateCookieJar of axum_extra: the value of a cookie, an added cookie, and all cookies.
pub record CookieJar : Type 1 where
  pub Jar : Type 0
  pub get : Jar → String → Option String
  pub add : Jar → Cookie → Jar
  pub iter : Jar → List Cookie

-- cookie_names::SESSION
abbrev pub session_name : String
session_name = "september_session"

-- Cookie::build for the session.
abbrev pub session_cookie : String → ℕ → Cookie
session_cookie user_json session_lifetime = record {
  name = session_name;
  value = user_json;
  path = some "/";
  http_only = true;
  same_site_lax = true;
  max_age = some session_lifetime;
}

-- for cookie in jar.iter(): the headers of the cookies whose text is a valid header.
abbrev pub cookie_headers : (Cookie → Option String) → List Cookie → List String
cookie_headers to_header [] = []
cookie_headers to_header (cookie ∷ cookies) = elim (to_header cookie) [
  | some value ↦ value ∷ cookie_headers to_header cookies
  | none ↦ cookie_headers to_header cookies
]

-- `decode` and `encode` are serde_json on a User, and `to_header` is the text of a cookie as a header.
-- `now` is the time of the check and `after` that of the response.
module _ (cookies : CookieJar) (decode : String → Option User) (encode : User → Option String)
    (to_header : Cookie → Option String) where
  abbrev pub refreshed_headers : cookies.Jar → ℕ → Option String → List String
  refreshed_headers jar session_lifetime none = []
  refreshed_headers jar session_lifetime (some user_json) =
      cookie_headers to_header
        (cookies.iter (cookies.add jar (session_cookie user_json session_lifetime)))

  abbrev pub refresh_session : cookies.Jar → ℕ → ℕ → Option User × Bool → List String
  refresh_session jar session_lifetime after (some user, true) =
      refreshed_headers jar session_lifetime (encode (refresh user session_lifetime after))
  refresh_session jar session_lifetime after _ = []

  -- auth_layer: the user that the request sees, and the cookies that are set with the response.
  unfoldable pub auth_layer : cookies.Jar → ℕ → ℕ → ℕ → Option User × List String
  unfolding extract_user_from_cookie
  auth_layer jar session_lifetime now after =
      let seen =
        extract_user_from_cookie decode (cookies.get jar session_name) session_lifetime now in
      (seen.0, refresh_session jar session_lifetime after seen)
