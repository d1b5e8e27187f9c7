-- ===== src/Session/Login.antt =====
-- What a login through callback of src/routes/auth.rs was checked for, and the subject of its user.
use september.Base.{
  ℕ, ◌≡◌, ◌<◌, ◌⊎◌, inl, inr, ap, ◌∙◌, add64, ◌>>=◌, refl, sym, Bool, true, false, not, Option,
  none, some, List, String, str_eq, eq_iff, Map, lookup, arith, if◌then◌else◌, leb,
}
use september.Base.Text.{Text}
use september.Federated.{Result, ok, err}
use september.Session.{AuthFlowState, validate_state, is_flow_expired, new}
use september.Session.Callback.{
  AuthError, CallbackQuery, Value, text, integer, other, as_str, as_i64, or_else, unwrap_or,
  OidcProvider, Header, Callback, detect_https, sub_claim, require, attempt, no_error, redirect_uri,
  LoggedIn, new_session, session_of, ask_provider, finish_login, callback,
}

-- The provider gave an access token for the code and information for that token, and what the session
-- takes of it.
pub record IsAnswered (around : Callback) (provider code : String) (flow : AuthFlowState)
    (token : List ℕ) (known : OidcProvider) (login : LoggedIn) : Type 0 where
  pub uri : Text
  pub access_token : String
  pub exchanged :
      around.exchange_code_for_tokens known code uri flow.pkce_verifier ≡ ok access_token
  pub info : Map Value
  pub fetched : around.fetch_user_info known access_token ≡ ok info
  pub sub : String
  -- The field of the subject is a text and is taken, or is a number, for which the subject is empty.
  pub sub_taken :
      (lookup known.userinfo_sub_field info ≡ some (text sub))
      ⊎ (((n : String) × (lookup known.userinfo_sub_field info ≡ some (integer n)))
          × (sub ≡ String.[]))
  pub user_sub : login.user.sub ≡ sub
  pub user_provider : login.user.provider ≡ provider
  pub user_token : login.user.csrf_token ≡ token
  pub user_expiry : login.user.expires_at ≡ add64 around.now around.session_lifetime
  pub return_given : (url : String) → flow.return_to ≡ some url → login.redirect_url ≡ url
  pub home_else : flow.return_to ≡ none → login.redirect_url ≡ "/"

-- The state is that of the flow, which has not expired, and the provider is known and has answered.
pub record IsFinished (around : Callback) (provider code state : String) (flow : AuthFlowState)
    (token : List ℕ) (login : LoggedIn) : Type 0 where
  pub state_matches : flow.csrf_token ≡ state
  pub not_expired : around.now < flow.expires_at
  pub known : OidcProvider
  pub provider_known : around.get_provider provider ≡ some known
  pub answered : IsAnswered around provider code flow token known login

pub record IsLogin (around : Callback) (provider : String) (query : CallbackQuery) (token : List ℕ)
    (login : LoggedIn) : Type 0 where
  pub no_idp_error : query.error ≡ none
  pub code : String
  pub code_given : query.code ≡ some code
  pub state : String
  pub state_given : query.state ≡ some state
  pub cookie : String
  pub cookie_given : around.flow_cookie ≡ some cookie
  pub flow : AuthFlowState
  pub flow_decoded : around.decode_flow cookie ≡ some flow
  pub finished : IsFinished around provider code state flow token login

module _ {A B : Type 0} where
  require_passed :
      (o : Option A) (error : AuthError) (next : A → Result B AuthError) (b : B)
      → require o error next ≡ ok b
      → (a : A) × (o ≡ some a) × (next a ≡ ok b)
  require_passed none error next b h = absurd cc
  require_passed (some a) error next b h = (a, refl, h)

  attempt_passed :
      (r : Result A AuthError) (next : A → Result B AuthError) (b : B)
      → attempt r next ≡ ok b
      → (a : A) × (r ≡ ok a) × (next a ≡ ok b)
  attempt_passed (ok a) next b h = (a, refl, h)
  attempt_passed (err e) next b h = absurd cc

module _ {B : Type 0} where
  guard :
      (c : Bool) (error : AuthError) (next : Result B AuthError) (b : B)
      → (if c then err error else next) ≡ ok b
      → (c ≡ false) × (next ≡ ok b)
  guard true error next b h = absurd (failed h)
    where
      failed : ¬ (◌≡◌ {A = Result B AuthError} (err error) (ok b))
      failed e = cc
  guard false error next b h = (refl, h)

not-false : (b : Bool) → not b ≡ false → b ≡ true
not-false true h = refl
not-false false h = absurd (ground arith)

leb-false : (a b : ℕ) → leb a b ≡ false → b < a
leb-false a b h = ground arith

ok_injective : (a b : LoggedIn) → ◌≡◌ {A = Result LoggedIn AuthError} (ok a) (ok b) → a ≡ b
ok_injective a b h = cc

no_error_passed :
    (error description : Option String) (u : Unit)
    → no_error error description ≡ ok u
    → error ≡ none
no_error_passed none description u h = refl
no_error_passed (some e) description u h = absurd cc

session_of_passed :
    (around : Callback) (provider : String) (flow : AuthFlowState) (token : List ℕ)
    (p : OidcProvider) (info : Map Value) (login : LoggedIn)
    → session_of around provider flow token p info ≡ ok login
    → (sub : String) × (sub_claim p.userinfo_sub_field info ≡ some sub)
      × (login ≡ new_session around provider flow token info sub)
unfolding session_of
session_of_passed around provider flow token p info login h =
    let (sub, claimed, e) =
      require_passed (sub_claim p.userinfo_sub_field info) _
        (λ sub. ok (new_session around provider flow token info sub)) login h in
    (sub, claimed, sym (ok_injective (new_session around provider flow token info sub) login e))

by_value :
    (field : String) (info : Map Value) (v : Option Value) (sub : String)
    → lookup field info ≡ v
    → or_else (or_else (v >>= as_str) (v >>= as_i64 >>= λ n. some String.[])) (v >>= as_i64)
      ≡ some sub
    → (lookup field info ≡ some (text sub))
      ⊎ (((n : String) × (lookup field info ≡ some (integer n))) × (sub ≡ String.[]))
by_value field info none sub e h = absurd cc
by_value field info (some (text s)) sub e h =
    let same : s ≡ sub = cc in inl (e ∙ ap (λ t. some (text t)) same)
by_value field info (some (integer n)) sub e h = inr ((n, e), cc)
by_value field info (some other) sub e h = absurd cc

sub_claim-taken :
    (field : String) (info : Map Value) (sub : String)
    → sub_claim field info ≡ some sub
    → (lookup field info ≡ some (text sub))
      ⊎ (((n : String) × (lookup field info ≡ some (integer n))) × (sub ≡ String.[]))
unfolding sub_claim
sub_claim-taken field info sub h = by_value field info (lookup field info) sub refl h

ask_provider-IsAnswered :
    (around : Callback) (provider code : String) (flow : AuthFlowState) (token : List ℕ)
    (p : OidcProvider) (uri : Text) (login : LoggedIn)
    → ask_provider around provider code flow token p uri ≡ ok login
    → IsAnswered around provider code flow token p login
unfolding ask_provider new
ask_provider-IsAnswered around provider code flow token p uri login h =
    let (access_token, exchanged, h1) =
      attempt_passed (around.exchange_code_for_tokens p code uri flow.pkce_verifier)
        (λ a. attempt (around.fetch_user_info p a) (session_of around provider flow token p)) login
        h in
    let (info, fetched, h2) =
      attempt_passed (around.fetch_user_info p access_token)
        (session_of around provider flow token p) login h1 in
    let (sub, sub_claimed, session) =
      session_of_passed around provider flow token p info login h2 in
    record {
      uri = uri;
      access_token = access_token;
      exchanged = exchanged;
      info = info;
      fetched = fetched;
      sub = sub;
      sub_taken = sub_claim-taken p.userinfo_sub_field info sub sub_claimed;
      user_sub = ap (λ l. l.user.sub) session;
      user_provider = ap (λ l. l.user.provider) session;
      user_token = ap (λ l. l.user.csrf_token) session;
      user_expiry = ap (λ l. l.user.expires_at) session;
      return_given = λ url e. ap (λ l. l.redirect_url) session ∙ ap (λ r. unwrap_or r "/") e;
      home_else = λ e. ap (λ l. l.redirect_url) session ∙ ap (λ r. unwrap_or r "/") e;
    }

finish_login-IsFinished :
    (around : Callback) (provider : String) (use_https : Bool) (code state : String)
    (flow : AuthFlowState) (token : List ℕ) (login : LoggedIn)
    → finish_login around provider use_https code state flow token ≡ ok login
    → IsFinished around provider code state flow token login
unfolding finish_login validate_state is_flow_expired
finish_login-IsFinished around provider use_https code state flow token login h =
    let (matches, h1) = guard (not (str_eq flow.csrf_token state)) _ _ login h in
    let (live, h2) = guard (leb flow.expires_at around.now) _ _ login h1 in
    let (known, provider_known, h3) =
      require_passed (around.get_provider provider) _
        (λ p.
          attempt (redirect_uri (around.build_redirect_uri provider use_https))
            (ask_provider around provider code flow token p))
        login h2 in
    let (uri, uri_given, h4) =
      attempt_passed (redirect_uri (around.build_redirect_uri provider use_https))
        (ask_provider around provider code flow token known) login h3 in
    record {
      state_matches =
          (eq_iff flow.csrf_token state).0 (not-false (str_eq flow.csrf_token state) matches);
      not_expired = leb-false flow.expires_at around.now live;
      known = known;
      provider_known = provider_known;
      answered = ask_provider-IsAnswered around provider code flow token known uri login h4;
    }

-- A callback that logs a user in came without an error of the provider, with a code and the state
-- of an unexpired flow, for a known provider that gave an access token for the code and user
-- information for that token. The subject of the session is the text in the provider's field of the
-- information, or empty when a number is there; the session is the provider's, with the new token and
-- a whole lifetime, and the browser is sent to the address of the flow, or else to the home page.
pub callback-IsLogin :
    (around : Callback) (configured : Bool) (provider : String) (proto ssl : Header)
    (query : CallbackQuery) (token : List ℕ) (login : LoggedIn)
    → callback around configured provider proto ssl query token ≡ ok login
    → IsLogin around provider query token login
unfolding callback
callback-IsLogin around configured provider proto ssl query token login h =
    let finish = finish_login around provider (detect_https proto ssl) in
    let (on, h0) = guard (not configured) _ _ login h in
    let (u, no_idp, h1) =
      attempt_passed (no_error query.error query.error_description) _ login h0 in
    let (code, code_given, h2) = require_passed query.code _ _ login h1 in
    let (state, state_given, h3) = require_passed query.state _ _ login h2 in
    let (cookie, cookie_given, h4) = require_passed around.flow_cookie _ _ login h3 in
    let (flow, decoded, h5) =
      require_passed (around.decode_flow cookie) _ (λ flow. finish code state flow token) login
        h4 in
    record {
      no_idp_error = no_error_passed query.error query.error_description u no_idp;
      code = code;
      code_given = code_given;
      state = state;
      state_given = state_given;
      cookie = cookie;
      cookie_given = cookie_given;
      flow = flow;
      flow_decoded = decoded;
      finished =
          finish_login-IsFinished around provider (detect_https proto ssl) code state flow token
            login h5;
    }

-- All accounts whose subject is a number get the same subject: for two answers of a provider with
-- numbers in the field of the subject, sub_claim gives the empty text.
pub sub_claim_integer :
    (field : String) (info other_info : Map Value) (n m : String)
    → lookup field info ≡ some (integer n)
    → lookup field other_info ≡ some (integer m)
    → (sub_claim field info ≡ some String.[]) × (sub_claim field other_info ≡ some String.[])
unfolding sub_claim
sub_claim_integer field info other_info n m h g = (rw h refl, rw g refl)
