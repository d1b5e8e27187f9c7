-- ===== src/Config/Checks.antt =====
-- The validation of the sections of src/config.rs: TLS, providers and themes, and resolve_secret.
use Prim.Native.Nat.{ℕ}
use september.Base.{
  Bool, true, false, ◌&&◌, ◌||◌, not, List, [], ◌∷◌, ◌++◌, leb, ◌==◌, if◌then◌else◌, drop,
}
use september.Base.Text.{Text, codes, all, starts_with, ends_with, is_empty, trim}
use september.Federated.{Result, ok, err}
use september.Worker.{text_eq}
use september.Config.{
  ConfigError, secret_resolution, TlsMode, acme, manual, no_tls, TlsConfig, ThemeConfig,
  OidcProviderConfig, OidcConfig, System, Checked, require, is_some,
}

unfoldable pub is_nonempty : {A : Type 0} → List A → Bool
is_nonempty [] = false
is_nonempty (a ∷ rest) = true

unfoldable pub validate_mode : TlsMode → TlsConfig → Checked
unfolding is_nonempty
validate_mode acme tls =
    require (is_nonempty tls.acme_domains)
      (codes
        "TLS mode 'acme' (default) requires [http.tls] acme_domains. Set domains or use mode = 'none' to disable TLS.")
      (require (is_some tls.acme_email)
        (codes "TLS mode 'acme' requires acme_email for Let's Encrypt notifications.") (ok tt))
validate_mode manual tls =
    require (is_some tls.cert_path) (codes "TLS mode 'manual' requires cert_path.")
      (require (is_some tls.key_path) (codes "TLS mode 'manual' requires key_path.") (ok tt))
validate_mode no_tls tls = ok tt

unfoldable pub validate_tls : TlsConfig → Checked
unfolding validate_mode
validate_tls tls = validate_mode tls.mode tls

unfoldable pub is_enabled : TlsConfig → Bool
is_enabled tls = elim tls.mode [ acme ↦ true | manual ↦ true | no_tls ↦ false ]

unfoldable pub uses_discovery : OidcProviderConfig → Bool
uses_discovery provider = is_some provider.issuer_url

unfoldable pub uses_manual_endpoints : OidcProviderConfig → Bool
uses_manual_endpoints provider =
    is_some provider.auth_url || is_some provider.token_url || is_some provider.userinfo_url

-- c.is_ascii_alphanumeric() || c == '-' || c == '_'
unfoldable pub is_url_safe : ℕ → Bool
is_url_safe c =
    (leb 48 c && leb c 57)
    || (leb 65 c && leb c 90)
    || (leb 97 c && leb c 122)
    || c == 45
    || c == 95

unfoldable pub provider_error : OidcProviderConfig → Text → Text
provider_error provider message = codes "Provider '" ++ provider.name ++ codes "': " ++ message

unfoldable pub validate_endpoints : OidcProviderConfig → Checked → Checked
unfolding provider_error
validate_endpoints provider next =
    require (is_some provider.auth_url)
      (provider_error provider (codes "manual mode requires auth_url"))
      (require (is_some provider.token_url)
        (provider_error provider (codes "manual mode requires token_url"))
        (require (is_some provider.userinfo_url)
          (provider_error provider (codes "manual mode requires userinfo_url")) next))

unfoldable pub validate_name : OidcProviderConfig → Checked
unfolding provider_error
validate_name provider =
    require (all is_url_safe provider.name)
      (provider_error provider
        (codes "name must contain only alphanumeric characters, dashes, and underscores"))
      (ok tt)

unfoldable pub validate_provider : OidcProviderConfig → Checked
unfolding provider_error validate_endpoints validate_name
validate_provider provider =
    let has_discovery = is_some provider.issuer_url in
    let has_manual =
      is_some provider.auth_url || is_some provider.token_url || is_some provider.userinfo_url in
    require (not (has_discovery && has_manual))
      (provider_error provider (
        codes
          "cannot specify both issuer_url and manual endpoints (auth_url/token_url/userinfo_url)"))
      (require (has_discovery || has_manual)
        (provider_error provider (
          codes
            "must specify either issuer_url (for OIDC discovery) or all manual endpoints (auth_url, token_url, userinfo_url)"))
        (if has_manual
          then validate_endpoints provider (validate_name provider)
          else validate_name provider))

-- Path::join: an absolute path replaces the one before it.
unfoldable pub join_path : Text → Text → Text
join_path base path =
    if starts_with path (codes "/")
    then path
    else if is_empty base || ends_with base (codes "/")
    then base ++ path
    else base ++ codes "/" ++ path

unfoldable pub templates_path : ThemeConfig → Text → Text
templates_path theme theme_name =
    join_path (join_path theme.themes_dir theme_name) (codes "templates")

unfoldable pub static_path : ThemeConfig → Text → Text
static_path theme theme_name = join_path (join_path theme.themes_dir theme_name) (codes "static")

unfoldable pub validate_theme : System → ThemeConfig → Checked
validate_theme system theme =
    require (system.exists theme.themes_dir)
      (codes "Themes directory not found: " ++ theme.themes_dir)
      (require (system.exists (templates_path theme (codes "default")))
        (codes "Default theme templates not found: " ++ templates_path theme (codes "default"))
        (require (system.exists (static_path theme (codes "default")))
          (codes "Default theme static files not found: " ++ static_path theme (codes "default"))
          (require
            (text_eq theme.name (codes "default")
              || system.exists (join_path theme.themes_dir theme.name))
            (codes "Theme '"
              ++ theme.name
              ++ codes "' not found at: "
              ++ join_path theme.themes_dir theme.name)
            (ok tt))))

secret_from_var : Text → Result Text Text → Result Text ConfigError
secret_from_var var_name (ok value) = ok value
secret_from_var var_name (err e) = err (
    secret_resolution
      (codes "Failed to read environment variable '" ++ var_name ++ codes "': " ++ e))

secret_from_file : Text → Result Text Text → Result Text ConfigError
secret_from_file file_path (ok contents) = ok (trim contents)
secret_from_file file_path (err e) =
    err (secret_resolution (codes "Failed to read secret file '" ++ file_path ++ codes "': " ++ e))

unfoldable pub resolve_secret : System → Text → Result Text ConfigError
unfolding secret_from_var secret_from_file
resolve_secret system value =
    if starts_with value (codes "env:")
    then secret_from_var (drop 4 value) (system.var (drop 4 value))
    else if starts_with value (codes "file:")
    then secret_from_file (drop 5 value) (system.read_to_string (drop 5 value))
    else ok value

unfoldable pub resolve_cookie_secret : System → OidcConfig → Result Text ConfigError
resolve_cookie_secret system oidc = resolve_secret system oidc.cookie_secret

unfoldable pub resolve_client_secret : System → OidcProviderConfig → Result Text ConfigError
resolve_client_secret system provider = resolve_secret system provider.client_secret
