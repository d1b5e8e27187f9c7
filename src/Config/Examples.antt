-- ===== src/Config/Examples.antt =====
-- The theorems about src/config.rs at concrete configurations, and tests.
use september.Base.{◌≡◌, ◌↔◌, refl, true, none, some, [], ◌∷◌}
use september.Base.Text.{
  Text, codes, starts_with, is_empty, ends_with, trim, trim_start, trim_end, is_whitespace,
}
use september.Federated.{Result, ok, err}
use september.Config.{
  default_tls, no_tls, default_cache, default_theme, OidcProviderConfig, AppConfig, System,
}
use september.Config.Checks.{validate_provider, join_path, resolve_secret}
use september.Config.Providers.{IsProvider, validate_provider_iff}
use september.Config.Legacy.{IsCompleted}
use september.Config.Load.{load, with_legacy}
use september.Config.Loaded.{IsUsable, load_iff}

abbrev google : OidcProviderConfig
google = record {
  name = codes "google";
  display_name = codes "Google";
  issuer_url = some (codes "https://accounts.google.com");
  auth_url = none;
  token_url = none;
  userinfo_url = none;
  client_id = codes "id";
  client_secret = codes "env:SECRET";
  userinfo_sub_field = codes "sub";
}

validate_provider_iff_example : (validate_provider google ≡ ok tt) ↔ IsProvider google
validate_provider_iff_example = validate_provider_iff google

abbrev legacy : AppConfig
legacy = record {
  http = record { host = codes "::"; port = 3000; tls = record default_tls { mode = no_tls } };
  nntp = record {
    timeout_seconds = 30;
    request_timeout_seconds = 20;
    defaults = record {
      threads_per_page = 25;
      articles_per_page = 20;
      max_articles_per_group = 500;
    };
    legacy_server = some (codes "news.example");
    legacy_port = some 119;
    legacy_worker_count = none;
    legacy_username = some (codes "me");
    legacy_password = some (codes "secret");
  };
  server = [];
  ui = record { site_name = none; collapse_threshold = 5; version = codes "1" };
  cache = default_cache;
  logging = record { format = codes "text" };
  theme = default_theme;
  oidc = some (record {
    cookie_secret = codes "secret";
    session_lifetime_days = 30;
    redirect_uri_base = none;
    providers = google ∷ [];
  });
}

abbrev system : System
system = record {
  read_to_string = λ path. ok (codes " contents ");
  exists = λ path. true;
  var = λ name. err (codes "not set");
}

abbrev from_str : Text → Result AppConfig Text
from_str contents = ok legacy

load_iff_example :
    (load system from_str (codes "config.toml") ≡ ok (with_legacy legacy))
    ↔ (IsCompleted legacy (with_legacy legacy) × IsUsable system (with_legacy legacy))
load_iff_example =
    load_iff system from_str (codes "config.toml") (codes " contents ") legacy (with_legacy legacy)
      refl refl

join_path_test : join_path (codes "/themes") (codes "default") ≡ codes "/themes/default"
unfolding join_path starts_with is_empty ends_with
join_path_test = refl

resolve_secret_test : resolve_secret system (codes "file:/run/secret") ≡ ok (codes "contents")
unfolding resolve_secret starts_with trim trim_start trim_end is_whitespace
resolve_secret_test = refl
