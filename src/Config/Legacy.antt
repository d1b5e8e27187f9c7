-- ===== src/Config/Legacy.antt =====
-- The server of the legacy section in AppConfig::load of src/config.rs.
use september.Base.{
  ℕ, ◌≡◌, ◌≢◌, ◌⊎◌, inl, inr, refl, sym, ◌∙◌, ap, false, Option, none, some, List, [], ◌∷◌,
}
use september.Base.Text.{Text, codes}
use september.Config.{AppConfig, NntpServerConfig, NntpSettings, from_legacy}
use september.Config.Load.{legacy_servers, with_legacy}

-- The server that the legacy fields describe.
abbrev pub default_server : NntpSettings → Text → ℕ → NntpServerConfig
default_server settings host port = record {
  name = codes "default";
  host = host;
  port = port;
  timeout_seconds = some settings.timeout_seconds;
  request_timeout_seconds = some settings.request_timeout_seconds;
  worker_count = settings.legacy_worker_count;
  username = settings.legacy_username;
  password = settings.legacy_password;
  allow_insecure_auth = false;
}

-- A configuration with servers is left as it is; one without has the legacy server, if its host and its
-- port are given, and is else left as it is too.
pub record IsCompleted (config result : AppConfig) : Type 0 where
  pub own_servers : config.server ≢ [] → result ≡ config
  pub legacy_server :
      (host : Text) (port : ℕ)
      → config.server ≡ []
      → config.nntp.legacy_server ≡ some host
      → config.nntp.legacy_port ≡ some port
      → result ≡ record config { server = default_server config.nntp host port ∷ [] }
  pub no_server :
      config.server ≡ []
      → (config.nntp.legacy_server ≡ none) ⊎ (config.nntp.legacy_port ≡ none)
      → result ≡ config

module _ (config : AppConfig) where
  -- The completed configuration is the one that the code makes, and there is no other.
  unfoldable pub IsOnly : Type 0
  IsOnly =
      IsCompleted config (with_legacy config)
      × ((result : AppConfig) → IsCompleted config result → result ≡ with_legacy config)

  with_servers : List NntpServerConfig → AppConfig
  with_servers servers = record config { server = servers }

  by_fields :
      (servers : List NntpServerConfig) (host : Option Text) (port : Option ℕ)
      → config.server ≡ servers
      → config.nntp.legacy_server ≡ host
      → config.nntp.legacy_port ≡ port
      → IsOnly
  unfolding IsOnly with_legacy legacy_servers from_legacy with_servers
  by_fields (s ∷ servers) host port e eh ep =
      let made : with_legacy config ≡ config =
        ap (λ l. with_servers (legacy_servers l (from_legacy config.nntp))) e
        ∙ ap with_servers (sym e) in
      let own : config.server ≢ [] = λ h. cc in
      (
        record {
          own_servers = λ n. made;
          legacy_server = λ h p empty given_h given_p. absurd (own empty);
          no_server = λ empty missing. absurd (own empty);
        },
        λ result c. c.own_servers own ∙ sym made,
      )
  by_fields [] (some host) (some port) e eh ep =
      let legacy : from_legacy config.nntp ≡ some (default_server config.nntp host port) =
        rw (eh, ep) refl in
      let made : with_legacy config
          ≡ record config { server = default_server config.nntp host port ∷ [] } =
        rw (e, legacy) refl in
      (
        record {
          own_servers = λ n. absurd (n e);
          legacy_server = λ h p empty given_h given_p.
              let same_host : host ≡ h = cc in
              let same_port : port ≡ p = cc in
              made
              ∙ ap (λ h. record config { server = default_server config.nntp h port ∷ [] })
                  same_host
              ∙ ap (λ p. record config { server = default_server config.nntp h p ∷ [] }) same_port;
          no_server = λ empty missing. absurd (elim missing [ inl g ↦ cc | inr g ↦ cc ]);
        },
        λ result c. c.legacy_server host port e eh ep ∙ sym made,
      )
  by_fields [] none port e eh ep =
      let legacy : from_legacy config.nntp ≡ none = rw (eh, from_legacy) refl in
      let made : with_legacy config ≡ config = rw (e, legacy) refl in
      (
        record {
          own_servers = λ n. absurd (n e);
          legacy_server = λ h p empty given_h given_p. absurd (cc);
          no_server = λ empty missing. made;
        },
        λ result c. c.no_server e (inl eh) ∙ sym made,
      )
  by_fields [] (some host) none e eh ep =
      let legacy : from_legacy config.nntp ≡ none = rw (eh, ep) refl in
      let made : with_legacy config ≡ config = rw (e, legacy) refl in
      (
        record {
          own_servers = λ n. absurd (n e);
          legacy_server = λ h p empty given_h given_p. absurd (cc);
          no_server = λ empty missing. made;
        },
        λ result c. c.no_server e (inr ep) ∙ sym made,
      )

  pub with_legacy-IsOnly : IsOnly
  with_legacy-IsOnly =
      by_fields config.server config.nntp.legacy_server config.nntp.legacy_port refl refl refl
