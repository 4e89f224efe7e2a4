-- ===== src/Tests/ServerTests.antt =====
-- internal/server at concrete inputs.
use golink_url_shortener.Base.{
  Text, codes, text_eq, is_upper, lower, to_lower, ◌≡◌, refl, ◌⊎◌, false, none, some, [],
}
use golink_url_shortener.Base.{err}
use golink_url_shortener.Db.Models.{Link, simple, is_alias}
use golink_url_shortener.Db.Sql.{exec}
use golink_url_shortener.Db.Repo.{sql_repo}
use golink_url_shortener.Db.LinkRepo.{get_by_name}
use golink_url_shortener.Server.Handler.{Request, decoded, redirect, login, failure, message}
use golink_url_shortener.Server.Net.{redirect_to_canonical}
use golink_url_shortener.Server.Actions.{CreateLinkParams}
use golink_url_shortener.Server.Created
use golink_url_shortener.Server.Api.{
  UpdateLinkRequest, handle_api_update_link, handle_api_delete_link, handle_api_transfer_link,
}
use golink_url_shortener.Server.Authorised
use golink_url_shortener.Server.Authorised.{MayOwn, MayEdit}
use golink_url_shortener.Server.Redirects.{do_redirect, handle_redirect, needs_auth}
use golink_url_shortener.Server.Sent
use golink_url_shortener.Server.Sent.{Refuses, Sends, LeadsTo}
use golink_url_shortener.Server.Targets.{IsTargetOf}
use golink_url_shortener.Tests.Fixtures.{docs, short, db, alice, bob, cfg, url, packages, request}

do_redirect-Sends_example :
    let out =
      do_redirect sql_repo packages cfg [] request short (codes "d") (codes "x") none (db, []) in
    (Refuses sql_repo packages cfg [] out × (is_alias short ≡ false → out.1.1 ≡ []))
    ⊎ ((target : Text) × (final : Link) × Sends sql_repo packages cfg [] target short [] out
        × LeadsTo sql_repo packages cfg [] db short final
        × IsTargetOf sql_repo packages cfg [] request (codes "d") (codes "x") [] final target)
do_redirect-Sends_example =
    Sent.do_redirect-Sends sql_repo packages cfg [] request short (codes "d") (codes "x") none db []

handle_redirect-guarded_example :
    let out = handle_redirect sql_repo packages cfg [] request (codes "Docs") [] none (db, []) in
    (out.1.1 ≡ [])
    × (((address : Text) × (redirect_to_canonical packages.net packages.url packages.config cfg []
              request
            ≡ some address)
          × (out.0 ≡ err (redirect 301 address)))
        ⊎ ((out.0 ≡ err login) ⊎ (out.0 ≡ err (failure 401 (message (codes "unauthorized"))))))
unfolding get_by_name exec to_lower lower is_upper text_eq needs_auth
handle_redirect-guarded_example =
    Sent.handle_redirect-guarded sql_repo packages cfg [] request (codes "Docs") [] db [] docs refl
      refl

abbrev patch : Request UpdateLinkRequest
patch = decoded (record {
  target = some (codes "https://new.example.com");
  link_type = none;
  alias_target = none;
  require_auth = none;
})

handle_api_update_link-MayEdit_example :
    ((handle_api_update_link sql_repo url cfg (codes "docs") bob patch db).1.tables ≡ db.tables)
    ⊎ MayEdit db.tables (to_lower (codes "docs")) (some bob)
handle_api_update_link-MayEdit_example =
    Authorised.handle_api_update_link-MayEdit url cfg (codes "docs") bob patch db

handle_api_delete_link-MayOwn_example :
    ((handle_api_delete_link sql_repo url cfg (codes "docs") bob db).1.tables ≡ db.tables)
    ⊎ MayOwn db.tables (to_lower (codes "docs")) bob
handle_api_delete_link-MayOwn_example =
    Authorised.handle_api_delete_link-MayOwn url cfg (codes "docs") bob db

handle_api_transfer_link-MayOwn_example :
    ((handle_api_transfer_link sql_repo url cfg
        (codes "docs")
        alice
        (decoded (codes "c@example.com"))
        db).1.tables
      ≡ db.tables)
    ⊎ MayOwn db.tables (to_lower (codes "docs")) alice
handle_api_transfer_link-MayOwn_example =
    Authorised.handle_api_transfer_link-MayOwn url cfg (codes "docs") alice
      (decoded (codes "c@example.com")) db

abbrev params : CreateLinkParams
params = record {
  name = codes "n";
  target = codes "https://n.example.com";
  link_type = simple;
  alias_target = [];
  require_auth = false;
}

abbrev made : Link
made = record {
  id = 3;
  name = codes "n";
  name_lower = codes "n";
  target = codes "https://n.example.com";
  owner_email = codes "a@b.c";
  link_type = simple;
  alias_target = [];
  require_auth = false;
  created_at = 20;
  last_used_at = none;
  use_count = 0;
}
