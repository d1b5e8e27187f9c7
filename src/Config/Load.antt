-- ===== src/Config/Load.antt =====
-- AppConfig::load of src/config.rs. `from_str` is the parser of the toml crate, with the defaults
-- that serde fills in.
use september.Base.{Option, none, some, List, [], ◌∷◌}
use september.Base.Text.{Text, codes}
use september.Federated.{Result, ok, err}
use september.Config.{
  ConfigError, io, parse, validation, AppConfig, OidcConfig, OidcProviderConfig, NntpServerConfig,
  System, Checked, from_legacy,
}
use september.Config.Checks.{validate_provider, validate_tls, validate_theme}

-- The servers, or the one of the legacy section.
unfoldable pub legacy_servers :
    List NntpServerConfig → Option NntpServerConfig → List NntpServerConfig
legacy_servers [] none = []
legacy_servers [] (some server) = server ∷ []
legacy_servers (s ∷ servers) legacy = s ∷ servers

unfoldable pub with_legacy : AppConfig → AppConfig
unfolding legacy_servers
with_legacy config = record config {
  server = legacy_servers config.server (from_legacy config.nntp);
}

-- The operator `?` on a check.
abbrev pub then_check : Checked → Checked → Checked
then_check (ok u) next = next
then_check (err e) next = err e

unfoldable pub validate_providers : List OidcProviderConfig → Checked
validate_providers [] = ok tt
validate_providers (provider ∷ providers) =
    then_check (validate_provider provider) (validate_providers providers)

no_providers : Text
no_providers = codes "OIDC configured but no providers defined. Add [[oidc.provider]] sections."

unfoldable pub oidc_providers : List OidcProviderConfig → Checked
unfolding no_providers
oidc_providers [] = err (validation no_providers)
oidc_providers (provider ∷ providers) = validate_providers (provider ∷ providers)

unfoldable pub validate_oidc : Option OidcConfig → Checked
unfolding oidc_providers
validate_oidc none = ok tt
validate_oidc (some oidc) = oidc_providers oidc.providers

unfoldable pub validate_servers : List NntpServerConfig → Checked
validate_servers [] = err (
    validation
      (codes "No NNTP servers configured. Add [[server]] sections or legacy [nntp] server/port"))
validate_servers (server ∷ servers) = ok tt

unfoldable pub validate_config : System → AppConfig → Checked
validate_config system config = then_check (validate_servers config.server) (
    then_check (validate_oidc config.oidc)
      (then_check (validate_tls config.http.tls) (validate_theme system config.theme)))

abbrev pub checked : AppConfig → Checked → Result AppConfig ConfigError
checked config (ok u) = ok config
checked config (err e) = err e

unfoldable pub load_parsed : System → Result AppConfig Text → Result AppConfig ConfigError
load_parsed system (ok config) =
    checked (with_legacy config) (validate_config system (with_legacy config))
load_parsed system (err e) = err (parse e)

unfoldable pub load_contents :
    System → (Text → Result AppConfig Text) → Result Text Text → Result AppConfig ConfigError
load_contents system from_str (ok contents) = load_parsed system (from_str contents)
load_contents system from_str (err e) = err (io e)

unfoldable pub load : System → (Text → Result AppConfig Text) → Text → Result AppConfig ConfigError
load system from_str path = load_contents system from_str (system.read_to_string path)
