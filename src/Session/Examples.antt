-- ===== src/Session/Examples.antt =====
-- Tests of the sessions and instances of their theorems.
use september.Base.{
  ◌≡◌, refl, true, false, Option, none, some, [], ◌∷◌, String, Map, lookup, if◌then◌else◌, List,
  str_eq,
}
use september.Base.Text.{
  Text, trim, trim_start, trim_end, starts_with, contains, any, is_control, is_whitespace,
}
use september.Federated.{ok}
use september.Session.{
  User, display_name, validate_csrf, auth_layer, Cookie, CookieJar, session_cookie,
  extract_user_from_cookie, is_expired, should_refresh, refresh, validate_state, is_flow_expired,
  new,
}
use september.Session.Callback.{
  Callback, CallbackQuery, Value, text, integer, absent, LoggedIn, callback, finish_login,
  ask_provider, session_of, sub_claim, claim, detect_https,
}
use september.Session.Login.{IsLogin, callback-IsLogin}
use september.Session.Redirect.{validate_return_to, validate_return_to_local}

abbrev user : User
user = record {
  sub = "sub123";
  name = none;
  email = some "a@b.c";
  provider = "google";
  expires_at = 4600;
  csrf_token = 97 ∷ 98 ∷ [];
}

name_falls_back : display_name user ≡ "a@b.c"
unfolding display_name
name_falls_back = refl

csrf_differs : validate_csrf user (97 ∷ 99 ∷ []) ≡ false
unfolding validate_csrf
csrf_differs = refl

abbrev decode : String → Option User
decode s = some user

abbrev encode : User → Option String
encode _ = some "json"

abbrev to_header : Cookie → Option String
to_header cookie = some cookie.value

-- Jars as lists of cookies, the last one added first.
abbrev value_of : List Cookie → String → Option String
value_of [] name = none
value_of (c ∷ cs) name =
    let rest = value_of cs name in if str_eq c.name name then some c.value else rest

abbrev jars : CookieJar
jars = record {
  Jar = List Cookie;
  get = value_of;
  add = λ jar cookie. cookie ∷ jar;
  iter = λ jar. jar;
}

-- With 600 of 3600 seconds left, the session is renewed.
renewed_test :
    auth_layer jars decode encode to_header (session_cookie "cookie" 3600 ∷ []) 3600 4000 4001
    ≡ (some user, "json" ∷ "cookie" ∷ [])
unfolding auth_layer extract_user_from_cookie is_expired should_refresh refresh
renewed_test = refl

-- " /g/x "
abbrev padded : Text
padded = 32 ∷ 47 ∷ 103 ∷ 47 ∷ 120 ∷ 32 ∷ []

accepted : validate_return_to (some padded) ≡ some (47 ∷ 103 ∷ 47 ∷ 120 ∷ [])
unfolding validate_return_to trim trim_start trim_end starts_with contains any is_control
    is_whitespace
accepted = refl

-- "//evil"
rejected : validate_return_to (some (47 ∷ 47 ∷ 101 ∷ [])) ≡ none
unfolding validate_return_to trim trim_start trim_end starts_with contains any is_control
    is_whitespace
rejected = refl

validate_return_to_local_example :
    (rest : Text) × (◌≡◌ {A = Text} (47 ∷ 103 ∷ 47 ∷ 120 ∷ []) (47 ∷ rest))
    × (trim padded ≡ 47 ∷ 103 ∷ 47 ∷ 120 ∷ [])
    × (starts_with rest (47 ∷ []) ≡ false)
    × (starts_with rest (92 ∷ []) ≡ false)
    × (contains (47 ∷ 103 ∷ 47 ∷ 120 ∷ []) (47 ∷ 47 ∷ []) ≡ false)
    × (any is_control (47 ∷ 103 ∷ 47 ∷ 120 ∷ []) ≡ false)
validate_return_to_local_example =
    validate_return_to_local padded (47 ∷ 103 ∷ 47 ∷ 120 ∷ []) accepted

abbrev around : Callback
around = record {
  get_provider = λ name. some (record { userinfo_sub_field = "sub" });
  flow_cookie = some "flow";
  decode_flow = λ cookie.
      some (record {
        csrf_token = "s";
        pkce_verifier = "v";
        return_to = some "/g/x";
        expires_at = 50;
      });
  build_redirect_uri = λ name https. ok [];
  exchange_code_for_tokens = λ p code uri verifier. ok "t";
  fetch_user_info = λ p t. ok (("sub", text "u1") ∷ []);
  session_lifetime = 60;
  now = 10;
}

abbrev query : CallbackQuery
query = record { code = some "c"; state = some "s"; error = none; error_description = none }

abbrev logged_in : LoggedIn
logged_in = record { user = new "u1" none none "google" 60 10 (1 ∷ []); redirect_url = "/g/x" }

callback-ok : callback around true "google" absent absent query (1 ∷ []) ≡ ok logged_in
unfolding callback finish_login ask_provider session_of validate_state is_flow_expired sub_claim
    claim lookup detect_https
callback-ok = refl

callback-IsLogin_example : IsLogin around "google" query (1 ∷ []) logged_in
callback-IsLogin_example =
    callback-IsLogin around true "google" absent absent query (1 ∷ []) logged_in callback-ok

abbrev first_user : Map Value
first_user = ("id", integer "17") ∷ []

abbrev second_user : Map Value
second_user = ("id", integer "42") ∷ []

first-id : lookup "id" first_user ≡ some (integer "17")
unfolding lookup
first-id = refl

second-id : lookup "id" second_user ≡ some (integer "42")
unfolding lookup
second-id = refl
