-- ===== src/Server/Pages.antt =====
-- What the pages of internal/server share: the data that each gives to its template, with a CSRF
-- token, or the response that a request is answered with instead.
use golink_url_shortener.Base.{Text, codes, Bool, Option, none, some}
use golink_url_shortener.Base.{ok, err}
use golink_url_shortener.Config.{Config, advanced_links_allowed}
use golink_url_shortener.Server.Handler.{
  Identity, message, Response, failure, Handler, internal_error,
}

pub record BaseData : Type 0 where
  pub title : Text
  pub identity : Option Identity
  pub csrf_token : Text
  pub favicon_path : Text
  pub oidc_enabled : Bool
  pub version : Text
  pub allow_advanced_links : Bool
  pub default_domain : Text

abbrev pub unauthorized : Response
unauthorized = failure 401 (message (codes "unauthorized"))

module _ (cfg : Config) (version : Text) where
  -- newBaseData, from the token that generateCSRFToken yields, if it does.
  unfoldable pub new_base_data : Option Text → Option Identity → Option BaseData
  new_base_data none id = none
  new_base_data (some token) id = some (record {
    title = cfg.title;
    identity = id;
    csrf_token = token;
    favicon_path = cfg.favicon_path;
    oidc_enabled = cfg.oidc.enabled;
    version = version;
    allow_advanced_links = advanced_links_allowed cfg;
    default_domain = cfg.default_domain;
  })

  abbrev pub base_or_reply : {S : Type 0} → Option Text → Option Identity → Handler S BaseData
  base_or_reply token id s = elim (new_base_data token id) [
    | none ↦ (err internal_error, s)
    | some base ↦ (ok base, s)
  ]

  unfoldable pub handle_help : {S : Type 0} → Option Text → Option Identity → Handler S BaseData
  handle_help token id = base_or_reply token id
