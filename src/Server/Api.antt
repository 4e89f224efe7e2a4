-- ===== src/Server/Api.antt =====
-- internal/server/api.go and reassign_api.go: the REST handlers for links.
use golink_url_shortener.Base.{
  ltb, leb, if◌then◌else◌, Text, codes, text_eq, is_empty, to_lower, equal_fold, trim_space, ℕ, ◌-◌,
  ◌*◌, Bool, false, not, ◌&&◌, ◌||◌, Option, none, some, map,
}
use golink_url_shortener.Base.{Result, ok, err}
use golink_url_shortener.Config.{Config, advanced_links_allowed}
use golink_url_shortener.Db.Models.{
  Link, LinkType, simple, advanced, alias, sort_by_name, sort_by_created, sort_by_last_used,
  sort_by_use_count, sort_asc, sort_desc, SortField,
}
use golink_url_shortener.Db.Sql.{DbError, alias_limit_exceeded}
use golink_url_shortener.Db.Repo.{Repo}
use golink_url_shortener.Links.Domains.{UrlPackage}
use golink_url_shortener.Links.Validate.{validate_target}
use golink_url_shortener.Redirect.Advanced.{check_template_target_domain}
use golink_url_shortener.Server.Handler.{
  some_or_reply, Identity, Problem, message, bad_target, bad_domain, bad_link_type, Response,
  failure, json, no_content, link_body, links_body, reassigned_body, Handler, ◌>>=◌, ◌>>◌, return,
  reply, reply_if, refuse_on, or_reply, call, internal_error, forbidden, Request, decode_json_body,
}
use golink_url_shortener.Server.Json.{link_type_from_string, link_to_response}
use golink_url_shortener.Server.Access.{is_owner_or_admin, check_edit, lookup}
use golink_url_shortener.Server.Actions.{
  CreateLinkParams, CreateLinkError, validation, conflict, internal, resolve_alias_target,
  do_create_link, is_advanced_type,
}
use golink_url_shortener.Server.Paging.{total_pages}

pub record CreateLinkRequest : Type 0 where
  pub name : Text
  pub target : Text
  pub link_type : Text
  pub alias_target : Text
  pub require_auth : Bool

-- A field that the JSON document leaves out is `none`.
pub record UpdateLinkRequest : Type 0 where
  pub target : Option Text
  pub link_type : Option Text
  pub alias_target : Option Text
  pub require_auth : Option Bool

pub record ReassignRequest : Type 0 where
  pub from_email : Text
  pub to_email : Text

-- The parameters of GET /api/links. strconv.Atoi gives `none` for an error, and for a number below
-- 0, which the code treats alike.
pub record ListRequest : Type 0 where
  pub page : Option ℕ
  pub limit : Option ℕ
  pub q : Text
  pub sort : Text
  pub dir : Text

abbrev pub json_error : ℕ → Problem → Response
json_error = failure

abbrev pub missing_link : Response
missing_link = json_error 404 (message (codes "link not found"))

abbrev pub create_failure : CreateLinkError → Response
create_failure (validation p) = json_error 400 p
create_failure conflict = json_error 409 (message (codes "link name already exists"))
create_failure (internal e) = internal_error

abbrev pub set_alias_failure : DbError → Response
set_alias_failure alias_limit_exceeded =
    json_error 422 (message (codes "alias limit reached for this link"))
set_alias_failure e = internal_error

abbrev pub given_or : {A : Type 0} → Option A → A → A
given_or none a = a
given_or (some b) a = b

abbrev pub trimmed : Option Text → Option Text
trimmed none = none
trimmed (some t) = some (trim_space t)

abbrev pub lowered_or : Option Text → Text → Text
lowered_or none current = current
lowered_or (some t) current = to_lower (trim_space t)

abbrev pub positive_or : Option ℕ → ℕ → ℕ
positive_or none d = d
positive_or (some n) d = if ltb 0 n then n else d

abbrev pub limit_or : Option ℕ → ℕ → ℕ
limit_or none d = d
limit_or (some n) d = if ltb 0 n && leb n 100 then n else d

unfoldable pub sort_field : Text → Result Text SortField
sort_field sf =
    if is_empty sf || text_eq sf (codes "name")
    then ok sort_by_name
    else if text_eq sf (codes "created")
    then ok sort_by_created
    else if text_eq sf (codes "last_used")
    then ok sort_by_last_used
    else if text_eq sf (codes "use_count")
    then ok sort_by_use_count
    else err sf

module _ {S : Type 0} (repo : Repo S) (url : UrlPackage) (cfg : Config) where
  unfoldable pub handle_api_list_links : ListRequest → Handler S (Unit {0})
  handle_api_list_links r =
      let page = positive_or r.page 1 in
      let limit = limit_or r.limit 100 in
      let offset = (page - 1) * limit in
      let dir = if equal_fold r.dir (codes "desc") then sort_desc else sort_asc in
      do
        field ← or_reply (λ sf. json_error 400 (message sf)) (sort_field r.sort)
        found ←
            call
              (if not (is_empty r.q)
                then repo.search_links r.q limit offset field dir false
                else repo.list_links limit offset field dir false)
              (λ e. internal_error)
        reply (
            json 200
              (links_body (map link_to_response found.0) found.1 page (total_pages found.1 limit)))

  unfoldable pub handle_api_create_link :
      Identity → Request CreateLinkRequest → Handler S (Unit {0})
  handle_api_create_link id body = do
    req ← decode_json_body body
    link_type ←
        or_reply (λ s. json_error 400 (bad_link_type s)) (link_type_from_string req.link_type)
    link ←
        create_or_reply
          (record {
            name = trim_space req.name;
            target = trim_space req.target;
            link_type = link_type;
            alias_target = to_lower (trim_space req.alias_target);
            require_auth = req.require_auth;
          })
          id.email
    reply (json 201 (link_body (link_to_response link)))
    where
      settled : Result CreateLinkError Link × S → Result Response Link × S
      settled (ok l, s) = (ok l, s)
      settled (err e, s) = (err (create_failure e), s)

      create_or_reply : CreateLinkParams → Text → Handler S Link
      create_or_reply p owner s = settled (do_create_link repo url cfg p owner s)

  unfoldable pub handle_api_get_link : Text → Handler S (Unit {0})
  handle_api_get_link param = do
    link ← lookup repo (to_lower param) missing_link
    reply (json 200 (link_body (link_to_response link)))

  -- The alias branch of PATCH, once the type and the auth are settled.
  unfoldable pub patch_alias : UpdateLinkRequest → Link → Bool → Handler S (Unit {0})
  patch_alias req link auth =
      let wanted = lowered_or req.alias_target link.alias_target in
      do
        reply_if (is_empty wanted)
            (json_error 400 (message (codes "alias_target is required for alias links")))
        resolved ← resolved_or_reply wanted link.name_lower
        updated ←
            call (repo.set_alias link.id link.name resolved auth cfg.max_aliases_per_link)
              set_alias_failure
        reply (json 200 (link_body (link_to_response updated)))
    where
      settled : Result Problem Text × S → Result Response Text × S
      settled (ok t, s) = (ok t, s)
      settled (err p, s) = (err (json_error 400 p), s)

      resolved_or_reply : Text → Text → Handler S Text
      resolved_or_reply target self s = settled (resolve_alias_target repo target self s)

  -- The branch for simple and advanced links.
  unfoldable pub patch_target : UpdateLinkRequest → Link → LinkType → Bool → Handler S (Unit {0})
  patch_target req link link_type auth =
      let target = given_or (trimmed req.target) link.target in
      do
        reply_if (is_advanced_type link_type && not (advanced_links_allowed cfg)) (
            json_error 400
              (message (codes "advanced links are disabled by the server configuration")))
        refuse_on (elim req.target [ none ↦ none | some t ↦ validate_target target ])
            (λ e. json_error 400 (bad_target e))
        refuse_on
            (if is_advanced_type link_type
              then check_template_target_domain url target cfg.domains_for_advanced_links
              else none)
            (λ e. json_error 400 (bad_domain e))
        updated ← call (repo.update link.id link.name target link_type auth) (λ e. internal_error)
        reply (json 200 (link_body (link_to_response updated)))

  unfoldable pub patched_type : UpdateLinkRequest → Link → Handler S LinkType
  patched_type req link = elim req.link_type [
    | none ↦ return link.link_type
    | some t ↦ or_reply (λ s. json_error 400 (bad_link_type s)) (link_type_from_string t)
  ]

  unfoldable pub patch_link : UpdateLinkRequest → Link → Bool → LinkType → Handler S (Unit {0})
  patch_link req link auth alias = patch_alias req link auth
  patch_link req link auth simple = patch_target req link simple auth
  patch_link req link auth advanced = patch_target req link advanced auth

  unfoldable pub handle_api_update_link :
      Text → Identity → Request UpdateLinkRequest → Handler S (Unit {0})
  handle_api_update_link param id body = do
    link ← lookup repo (to_lower param) missing_link
    check_edit repo (some id) link
    req ← decode_json_body body
    link_type ← patched_type req link
    patch_link req link (given_or req.require_auth link.require_auth) link_type

  unfoldable pub handle_api_delete_link : Text → Identity → Handler S (Unit {0})
  handle_api_delete_link param id = do
    link ← lookup repo (to_lower param) missing_link
    reply_if (not (is_owner_or_admin id link)) forbidden
    call (repo.delete link.id) (λ e. internal_error)
    reply no_content

  -- `body` holds the new owner.
  unfoldable pub handle_api_transfer_link : Text → Identity → Request Text → Handler S (Unit {0})
  handle_api_transfer_link param id body = do
    link ← lookup repo (to_lower param) missing_link
    reply_if (not (is_owner_or_admin id link)) forbidden
    given ← decode_json_body body
    reply_if (is_empty (trim_space given))
        (json_error 400 (message (codes "new_owner is required")))
    reply_if (equal_fold (trim_space given) link.owner_email)
        (json_error 400 (message (codes "new_owner is already the current owner")))
    updated ← call (repo.transfer_ownership link.id (trim_space given)) (λ e. internal_error)
    reply (json 200 (link_body (link_to_response updated)))

  -- Behind RequireAdmin. The body is decoded without a limit of its size; `none` is one that is no
  -- such JSON.
  unfoldable pub handle_api_reassign_links : Option ReassignRequest → Handler S (Unit {0})
  handle_api_reassign_links body = do
    req ← some_or_reply (json_error 400 (message (codes "invalid JSON body"))) body
    reply_if (is_empty (trim_space req.from_email) || is_empty (trim_space req.to_email))
        (json_error 400 (message (codes "from_email and to_email are required")))
    reply_if (equal_fold (trim_space req.from_email) (trim_space req.to_email))
        (json_error 400 (message (codes "from_email and to_email must be different")))
    n ←
        call (repo.reassign_links (trim_space req.from_email) (trim_space req.to_email))
          (λ e. internal_error)
    reply (json 200 (reassigned_body n))
