-- ===== src/Config/Loaded.antt =====
-- What AppConfig::load of src/config.rs guarantees of a configuration that it returns.
use september.Base.{
  ◌≡◌, ◌≢◌, ◌↔◌, refl, sym, ap, subst, true, ◌||◌, Option, none, some, List, [], ◌∷◌, arith, All,
}
use september.Base.Text.{Text, codes}
use september.Federated.{Result, ok, err}
use september.Worker.{text_eq}
use september.Config.{
  ConfigError, TlsMode, acme, manual, no_tls, TlsConfig, ThemeConfig, OidcConfig,
  OidcProviderConfig, NntpServerConfig, AppConfig, System, Checked, is_some,
}
use september.Config.Checks.{
  validate_tls, validate_mode, is_nonempty, validate_provider, validate_theme, join_path,
  templates_path, static_path,
}
use september.Config.Providers.{IsProvider, validate_provider_iff, require_iff}
use september.Config.Legacy.{IsCompleted, IsOnly, with_legacy-IsOnly}
use september.Config.Load.{
  with_legacy, then_check, validate_providers, oidc_providers, validate_oidc, validate_servers,
  validate_config, checked, load_parsed, load_contents, load,
}

-- The certificate of the mode can be had.
abbrev pub HasCertificate : TlsMode → TlsConfig → Type 0
HasCertificate acme tls = (tls.acme_domains ≢ []) × (is_some tls.acme_email ≡ true)
HasCertificate manual tls = (is_some tls.cert_path ≡ true) × (is_some tls.key_path ≡ true)
HasCertificate no_tls tls = Unit

abbrev pub HasProviders : Option OidcConfig → Type 0
HasProviders none = Unit
HasProviders (some oidc) = (oidc.providers ≢ []) × All IsProvider oidc.providers

pub record HasTheme (system : System) (theme : ThemeConfig) : Type 0 where
  pub directory : system.exists theme.themes_dir ≡ true
  pub default_templates : system.exists (templates_path theme (codes "default")) ≡ true
  pub default_static : system.exists (static_path theme (codes "default")) ≡ true
  pub active :
      (text_eq theme.name (codes "default")
        || system.exists (join_path theme.themes_dir theme.name))
      ≡ true

pub record IsUsable (system : System) (config : AppConfig) : Type 0 where
  pub servers : config.server ≢ []
  pub providers : HasProviders config.oidc
  pub certificate : HasCertificate config.http.tls.mode config.http.tls
  pub theme : HasTheme system config.theme

then_check_iff :
    (first next : Checked) → (then_check first next ≡ ok tt) ↔ ((first ≡ ok tt) × (next ≡ ok tt))
then_check_iff (ok u) next = (λ h. (refl, h), λ h. h.1)
then_check_iff (err e) next = (λ h. absurd (failed h), λ h. absurd (failed h.0))
  where
    failed : ¬ (◌≡◌ {A = Checked} (err e) (ok tt))
    failed h = cc

nonempty_iff : {A : Type 0} (l : List A) → (is_nonempty l ≡ true) ↔ (l ≢ [])
unfolding is_nonempty
nonempty_iff [] = (λ h. absurd (ground arith), λ h. absurd (h refl))
nonempty_iff (a ∷ l) = (λ h e. cc, λ h. refl)

validate_mode_iff :
    (mode : TlsMode) (tls : TlsConfig) → (validate_mode mode tls ≡ ok tt) ↔ HasCertificate mode tls
unfolding validate_mode
validate_mode_iff acme tls = (
  λ h.
      let (domains, rest) = (require_iff _ _ _).0 h in
      ((nonempty_iff tls.acme_domains).0 domains, ((require_iff _ _ (ok tt)).0 rest).0),
  λ c.
      (require_iff _ _ _).1
        ((nonempty_iff tls.acme_domains).1 c.0, (require_iff _ _ (ok tt)).1 (c.1, refl)),
)
validate_mode_iff manual tls = (
  λ h. let (cert, rest) = (require_iff _ _ _).0 h in (cert, ((require_iff _ _ (ok tt)).0 rest).0),
  λ c. (require_iff _ _ _).1 (c.0, (require_iff _ _ (ok tt)).1 (c.1, refl)),
)
validate_mode_iff no_tls tls = (λ h. tt, λ c. refl)

validate_providers_iff :
    (providers : List OidcProviderConfig)
    → (validate_providers providers ≡ ok tt) ↔ All IsProvider providers
unfolding validate_providers
validate_providers_iff [] = (λ h. tt, λ a. refl)
validate_providers_iff (p ∷ providers) = (
  λ h.
      let (first, rest) =
        (then_check_iff (validate_provider p) (validate_providers providers)).0 h in
      ((validate_provider_iff p).0 first, (validate_providers_iff providers).0 rest),
  λ a.
      (then_check_iff (validate_provider p) (validate_providers providers)).1
        ((validate_provider_iff p).1 a.0, (validate_providers_iff providers).1 a.1),
)

validate_oidc_iff : (oidc : Option OidcConfig) → (validate_oidc oidc ≡ ok tt) ↔ HasProviders oidc
unfolding validate_oidc oidc_providers is_nonempty
validate_oidc_iff none = (λ h. tt, λ p. refl)
validate_oidc_iff (some oidc) = by_providers oidc.providers
  where
    by_providers :
        (l : List OidcProviderConfig) → (oidc_providers l ≡ ok tt) ↔ ((l ≢ []) × All IsProvider l)
    by_providers [] = (λ h. absurd (failed h), λ p. absurd (p.0 refl))
      where
        failed : ¬ (oidc_providers [] ≡ ok tt)
        failed e = cc
    by_providers (p ∷ l) = (
      λ h. ((nonempty_iff (p ∷ l)).0 refl, (validate_providers_iff (p ∷ l)).0 h),
      λ q. (validate_providers_iff (p ∷ l)).1 q.1,
    )

validate_theme_iff :
    (system : System) (theme : ThemeConfig)
    → (validate_theme system theme ≡ ok tt) ↔ HasTheme system theme
unfolding validate_theme
validate_theme_iff system theme = (
  λ h.
      let (directory, h1) = (require_iff _ _ _).0 h in
      let (templates, h2) = (require_iff _ _ _).0 h1 in
      let (static, h3) = (require_iff _ _ _).0 h2 in
      record {
        directory = directory;
        default_templates = templates;
        default_static = static;
        active = ((require_iff _ _ (ok tt)).0 h3).0;
      },
  λ t. (require_iff _ _ _).1 (
    t.directory,
    (require_iff _ _ _).1 (
      t.default_templates,
      (require_iff _ _ _).1 (t.default_static, (require_iff _ _ (ok tt)).1 (t.active, refl)),
    ),
  ),
)

validate_servers_iff :
    (servers : List NntpServerConfig) → (validate_servers servers ≡ ok tt) ↔ (servers ≢ [])
unfolding validate_servers
validate_servers_iff [] = (λ h. absurd (failed h), λ n. absurd (n refl))
  where
    failed : ¬ (validate_servers [] ≡ ok tt)
    failed e = cc
validate_servers_iff (s ∷ servers) = (λ h e. cc, λ n. refl)

validate_config_iff :
    (system : System) (config : AppConfig)
    → (validate_config system config ≡ ok tt) ↔ IsUsable system config
unfolding validate_config validate_tls
validate_config_iff system config = (
  λ h.
      let (servers, h1) = (then_check_iff (validate_servers config.server) _).0 h in
      let (oidc, h2) = (then_check_iff (validate_oidc config.oidc) _).0 h1 in
      let (tls, theme) = (then_check_iff (validate_tls config.http.tls) _).0 h2 in
      record {
        servers = (validate_servers_iff config.server).0 servers;
        providers = (validate_oidc_iff config.oidc).0 oidc;
        certificate = (validate_mode_iff config.http.tls.mode config.http.tls).0 tls;
        theme = (validate_theme_iff system config.theme).0 theme;
      },
  λ u. (then_check_iff (validate_servers config.server) _).1 (
    (validate_servers_iff config.server).1 u.servers,
    (then_check_iff (validate_oidc config.oidc) _).1 (
      (validate_oidc_iff config.oidc).1 u.providers,
      (then_check_iff (validate_tls config.http.tls) _).1 (
        (validate_mode_iff config.http.tls.mode config.http.tls).1 u.certificate,
        (validate_theme_iff system config.theme).1 u.theme,
      ),
    ),
  ),
)

checked_iff :
    (config result : AppConfig) (c : Checked)
    → (checked config c ≡ ok result) ↔ ((result ≡ config) × (c ≡ ok tt))
checked_iff config result (ok tt) = (λ h. (cc, refl), λ h. ap ok (sym h.0))
checked_iff config result (err e) = (λ h. absurd (failed h), λ h. absurd (refused h.1))
  where
    failed : ¬ (◌≡◌ {A = Result AppConfig ConfigError} (err e) (ok result))
    failed h = cc

    refused : ¬ (◌≡◌ {A = Checked} (err e) (ok tt))
    refused h = cc

-- When the file can be read and parsed, load returns exactly the completed configuration, if it is
-- usable. Completed: the parsed one when it has servers of its own; else with the server of the legacy
-- section, when that names a host and a port. Usable: it has a server, valid providers when it has the
-- OIDC section, what the TLS mode needs, and the theme's directories.
pub load_iff :
    (system : System) (from_str : Text → Result AppConfig Text) (path contents : Text)
    (config result : AppConfig)
    → system.read_to_string path ≡ ok contents
    → from_str contents ≡ ok config
    → (load system from_str path ≡ ok result) ↔ (IsCompleted config result × IsUsable system result)
unfolding load load_contents load_parsed IsOnly
load_iff system from_str path contents config result read parsed =
    let (made, only) = with_legacy-IsOnly config in
    rw (read, parsed)
      (
        λ h.
            let (same, passed) = (checked_iff (with_legacy config) result _).0 h in
            rw same (made, (validate_config_iff system (with_legacy config)).0 passed),
        λ u.
            let same = only result u.0 in
            (checked_iff (with_legacy config) result _).1 (
              same,
              (validate_config_iff system (with_legacy config)).1
                  (subst (IsUsable system) same u.1),
            ),
      )
