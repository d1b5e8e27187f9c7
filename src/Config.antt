-- ===== src/Config.antt =====
-- The configuration of src/config.rs: its sections, their defaults and validation, and
-- AppConfig::load. The parser of TOML and the file system are parameters.
pub mod Providers
pub mod Checks
pub mod Load
pub mod Legacy
pub mod Loaded
mod Examples
use september.Base.{ℕ, Bool, true, false, ◌&&◌, ◌||◌, not, Option, none, some, List, []}
use september.Base.Text.{Text, codes}
use september.Federated.{Result, ok, err}

pub data ConfigError : Type 0 where
  io : Text → ConfigError
  parse : Text → ConfigError
  validation : Text → ConfigError
  secret_resolution : Text → ConfigError

pub data TlsMode : Type 0 where
  acme : TlsMode
  manual : TlsMode
  no_tls : TlsMode

pub record TlsConfig : Type 0 where
  pub mode : TlsMode
  pub cert_path : Option Text
  pub key_path : Option Text
  pub acme_domains : List Text
  pub acme_email : Option Text
  pub acme_cache_dir : Text
  pub acme_production : Bool
  pub redirect_http : Bool
  pub redirect_port : ℕ

unfoldable pub default_tls : TlsConfig
default_tls = record {
  mode = acme;
  cert_path = none;
  key_path = none;
  acme_domains = [];
  acme_email = none;
  acme_cache_dir = codes "./acme-cache";
  acme_production = false;
  redirect_http = true;
  redirect_port = 80;
}

pub record HttpServerConfig : Type 0 where
  pub host : Text
  pub port : ℕ
  pub tls : TlsConfig

pub record NntpDefaults : Type 0 where
  pub threads_per_page : ℕ
  pub articles_per_page : ℕ
  pub max_articles_per_group : ℕ

pub record NntpSettings : Type 0 where
  pub timeout_seconds : ℕ
  pub request_timeout_seconds : ℕ
  pub defaults : NntpDefaults
  pub legacy_server : Option Text
  pub legacy_port : Option ℕ
  pub legacy_worker_count : Option ℕ
  pub legacy_username : Option Text
  pub legacy_password : Option Text

pub record NntpServerConfig : Type 0 where
  pub name : Text
  pub host : Text
  pub port : ℕ
  pub timeout_seconds : Option ℕ
  pub request_timeout_seconds : Option ℕ
  pub worker_count : Option ℕ
  pub username : Option Text
  pub password : Option Text
  pub allow_insecure_auth : Bool

abbrev pub unwrap_or {ℓ} : {A : Type ℓ} → Option A → A → A
unwrap_or none default = default
unwrap_or (some a) default = a

abbrev pub is_some {ℓ} : {A : Type ℓ} → Option A → Bool
is_some none = false
is_some (some a) = true

unfoldable pub timeout_seconds : NntpServerConfig → NntpSettings → ℕ
timeout_seconds server global = unwrap_or server.timeout_seconds global.timeout_seconds

unfoldable pub request_timeout_seconds : NntpServerConfig → NntpSettings → ℕ
request_timeout_seconds server global =
    unwrap_or server.request_timeout_seconds global.request_timeout_seconds

unfoldable pub worker_count : NntpServerConfig → ℕ
worker_count server = unwrap_or server.worker_count 4

unfoldable pub has_credentials : NntpServerConfig → Bool
has_credentials server = is_some server.username && is_some server.password

unfoldable pub requires_tls_for_credentials : NntpServerConfig → Bool
requires_tls_for_credentials server = has_credentials server && not server.allow_insecure_auth

legacy_of : NntpSettings → Option Text → Option ℕ → Option NntpServerConfig
legacy_of settings (some server) (some port) = some (record {
  name = codes "default";
  host = server;
  port = port;
  timeout_seconds = some settings.timeout_seconds;
  request_timeout_seconds = some settings.request_timeout_seconds;
  worker_count = settings.legacy_worker_count;
  username = settings.legacy_username;
  password = settings.legacy_password;
  allow_insecure_auth = false;
})
legacy_of settings none port = none
legacy_of settings (some server) none = none

unfoldable pub from_legacy : NntpSettings → Option NntpServerConfig
unfolding legacy_of
from_legacy settings = legacy_of settings settings.legacy_server settings.legacy_port

pub record UiConfig : Type 0 where
  pub site_name : Option Text
  pub collapse_threshold : ℕ
  pub version : Text

pub record CacheConfig : Type 0 where
  pub article_ttl_seconds : ℕ
  pub threads_ttl_seconds : ℕ
  pub groups_ttl_seconds : ℕ
  pub max_articles : ℕ
  pub max_thread_lists : ℕ
  pub max_group_stats : ℕ

unfoldable pub default_cache : CacheConfig
default_cache = record {
  article_ttl_seconds = 86400;
  threads_ttl_seconds = 1800;
  groups_ttl_seconds = 3600;
  max_articles = 10000;
  max_thread_lists = 100;
  max_group_stats = 1000;
}

pub record LoggingConfig : Type 0 where
  pub format : Text

pub record ThemeConfig : Type 0 where
  pub name : Text
  pub themes_dir : Text

unfoldable pub default_theme : ThemeConfig
default_theme = record { name = codes "default"; themes_dir = codes "/usr/share/september/themes" }

pub record OidcProviderConfig : Type 0 where
  pub name : Text
  pub display_name : Text
  pub issuer_url : Option Text
  pub auth_url : Option Text
  pub token_url : Option Text
  pub userinfo_url : Option Text
  pub client_id : Text
  pub client_secret : Text
  pub userinfo_sub_field : Text

pub record OidcConfig : Type 0 where
  pub cookie_secret : Text
  pub session_lifetime_days : ℕ
  pub redirect_uri_base : Option Text
  pub providers : List OidcProviderConfig

pub record AppConfig : Type 0 where
  pub http : HttpServerConfig
  pub nntp : NntpSettings
  pub server : List NntpServerConfig
  pub ui : UiConfig
  pub cache : CacheConfig
  pub logging : LoggingConfig
  pub theme : ThemeConfig
  pub oidc : Option OidcConfig

-- What the loading relies on of std::fs and std::env.
pub record System : Type 0 where
  pub read_to_string : Text → Result Text Text
  pub exists : Text → Bool
  pub var : Text → Result Text Text

-- A check that comes before another step.
abbrev pub Checked : Type 0
Checked = Result {0, 0} Unit ConfigError

abbrev pub require : Bool → Text → Checked → Checked
require true message next = next
require false message next = err (validation message)
