-- ===== src/Config/Providers.antt =====
-- OidcProviderConfig::validate and TlsConfig::validate of src/config.rs against what they should
-- accept.
use september.Base.{
  ◌≡◌, ◌↔◌, ◌⊎◌, refl, Bool, true, false, ◌&&◌, ◌||◌, not, Option, none, arith, if◌then◌else◌,
}
use september.Base.Text.{Text, all}
use september.Federated.{ok, err}
use september.Config.{validation, OidcProviderConfig, Checked, require, is_some}
use september.Config.Checks.{is_url_safe, validate_endpoints, validate_name, validate_provider}

pub require_iff :
    (b : Bool) (message : Text) (next : Checked)
    → (require b message next ≡ ok tt) ↔ ((b ≡ true) × (next ≡ ok tt))
require_iff true message next = (λ h. (refl, h), λ h. h.1)
require_iff false message next = (λ h. absurd (failed h), λ h. absurd (ground arith))
  where
    failed : ¬ (◌≡◌ {A = Checked} (err (validation message)) (ok tt))
    failed e = cc

-- An issuer or the three endpoints, and not both.
abbrev pub HasEndpoints : Option Text → Option Text → Option Text → Option Text → Type 0
HasEndpoints issuer auth token userinfo =
    ((is_some issuer ≡ true) × (auth ≡ none) × (token ≡ none) × (userinfo ≡ none))
    ⊎ ((issuer ≡ none) × (is_some auth ≡ true) × (is_some token ≡ true) × (is_some userinfo ≡ true))

pub record IsProvider (p : OidcProviderConfig) : Type 0 where
  pub endpoints : HasEndpoints p.issuer_url p.auth_url p.token_url p.userinfo_url
  pub name_safe : all is_url_safe p.name ≡ true

module _ (both missing no_auth no_token no_userinfo : Text) (next : Checked) where
  check_endpoints : Option Text → Option Text → Option Text → Option Text → Checked
  check_endpoints issuer auth token userinfo =
      let has_manual = is_some auth || is_some token || is_some userinfo in
      require (not (is_some issuer && has_manual)) both (
        require (is_some issuer || has_manual) missing (
          if has_manual
          then require (is_some auth) no_auth
              (require (is_some token) no_token (require (is_some userinfo) no_userinfo next))
          else next))

  check_endpoints_sound :
      (issuer auth token userinfo : Option Text)
      → check_endpoints issuer auth token userinfo ≡ ok tt
      → HasEndpoints issuer auth token userinfo × (next ≡ ok tt)
  unfolding check_endpoints
  check_endpoints_sound issuer auth token userinfo h = ground arith

  check_endpoints_complete :
      (issuer auth token userinfo : Option Text)
      → HasEndpoints issuer auth token userinfo
      → next ≡ ok tt
      → check_endpoints issuer auth token userinfo ≡ ok tt
  unfolding check_endpoints
  check_endpoints_complete issuer auth token userinfo e h = ground arith

-- validate accepts a provider exactly when it has an issuer URL and no endpoint or no issuer URL
-- and all three endpoints, and its name has only ASCII letters, digits, dashes and underscores.
pub validate_provider_iff : (p : OidcProviderConfig) → (validate_provider p ≡ ok tt) ↔ IsProvider p
unfolding validate_provider validate_endpoints validate_name check_endpoints
validate_provider_iff p = (
  λ h.
      let (e, n) =
        check_endpoints_sound _ _ _ _ _ (validate_name p) p.issuer_url p.auth_url p.token_url
          p.userinfo_url h in
      record {
        endpoints = e;
        name_safe = ((require_iff (all is_url_safe p.name) _ (ok tt)).0 n).0;
      },
  λ v.
      check_endpoints_complete _ _ _ _ _ (validate_name p) p.issuer_url p.auth_url p.token_url
        p.userinfo_url v.endpoints
        ((require_iff (all is_url_safe p.name) _ (ok tt)).1 (v.name_safe, refl)),
)
