-- ===== src/Session/Expiry.antt =====
-- When a session expires and when it is refreshed.
use september.Base.{
  ℕ, ◌+◌, ◌/◌, ◌≤◌, ◌<◌, ◌≡◌, ◌↔◌, true, false, Option, none, some, List, [], String, arith, word,
}
use september.Session.{
  User, is_expired, should_refresh, refresh, Cookie, CookieJar, session_name, session_cookie,
  cookie_headers,
}

-- A session is valid from its start for exactly its lifetime, and refreshing starts it anew: the
-- check answers false exactly before the refreshed expiry, which is a lifetime behind `now`, and
-- nothing else of the user changes. The expiry must fit a 64-bit word.
pub refresh_extends :
    (self : User) (lifetime now later : ℕ)
    → now + lifetime < word
    → ((is_expired (refresh self lifetime now) later ≡ false) ↔ (later < now + lifetime))
      × (record (refresh self lifetime now) { expires_at = self.expires_at } ≡ self)
unfolding is_expired refresh
refresh_extends self lifetime now later fits =
    ((λ e. ground arith, λ h. ground arith), ground arith)

-- With a lifetime of at least five seconds a session asks for a refresh exactly when less than a
-- fifth of its lifetime is left, and just after a refresh it does not ask again.
pub should_refresh_last_fifth :
    (self : User) (lifetime now : ℕ)
    → 5 ≤ lifetime
    → now + lifetime < word
    → ((should_refresh self lifetime now ≡ true) ↔ (self.expires_at < now + lifetime / 5))
      × (should_refresh (refresh self lifetime now) lifetime now ≡ false)
unfolding should_refresh refresh
should_refresh_last_fifth self lifetime now long fits =
    ((λ e. ground arith, λ h. ground arith), ground arith)

module _ (cookies : CookieJar) (decode : String → Option User) (encode : User → Option String)
    (to_header : Cookie → Option String) where
  -- The session cookie of the jar is one of the user, who may still use it.
  abbrev pub HasSession : cookies.Jar → ℕ → User → Type 0
  HasSession jar now user =
      (value : String) × (cookies.get jar session_name ≡ some value)
      × (decode value ≡ some user)
      × (now < user.expires_at)

  pub record IsChecked (jar : cookies.Jar) (lifetime now after : ℕ) (seen : Option User)
      (sent : List String) : Type 0 where
    pub user_seen : (user : User) → (seen ≡ some user) ↔ HasSession jar now user
    pub none_sent : seen ≡ none → sent ≡ []
    pub fresh_kept :
        (user : User) → seen ≡ some user → now + lifetime / 5 ≤ user.expires_at → sent ≡ []
    pub old_renewed :
        (user : User) (user_json : String)
        → seen ≡ some user
        → user.expires_at < now + lifetime / 5
        → encode (record user { expires_at = after + lifetime }) ≡ some user_json
        → sent
          ≡ cookie_headers to_header
              (cookies.iter (cookies.add jar (session_cookie user_json lifetime)))
