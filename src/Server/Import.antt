-- ===== src/Server/Import.antt =====
-- internal/server/import.go.
use golink_url_shortener.Base.{
  if◌then◌else◌, length, Text, is_empty, to_lower, trim_space, ℕ, ◌+◌, ◌≡◌, Bool, true, false, not,
  Option, none, some, List, [], ◌∷◌, ◌++◌, arith,
}
use golink_url_shortener.Base.{Result, ok, err}
use golink_url_shortener.Config.{Config}
use golink_url_shortener.Db.Models.{Link, LinkType, simple, advanced, alias}
use golink_url_shortener.Db.Sql.{DbError, not_found}
use golink_url_shortener.Db.Repo.{Repo}
use golink_url_shortener.Links.Validate.{validate_name, validate_target}
use golink_url_shortener.Server.Handler.{
  Identity, ImportResult, Request, Response, json, import_body, Handler, ◌>>=◌, decode_json_body,
}
use golink_url_shortener.Server.Json.{link_type_from_string}

-- ExportLink of export.go; an import does not read the time and the use count.
pub record ExportLink : Type 0 where
  pub name : Text
  pub target : Text
  pub owner_email : Text
  pub link_type : Text
  pub alias_target : Text
  pub require_auth : Bool
  pub created_at : ℕ
  pub use_count : ℕ
  pub shares : List Text

-- What becomes of one entry.
pub data Entry : Type 0 where
  was_created was_updated was_skipped : Entry

abbrev pub normalised : ExportLink → ExportLink
normalised el = record el {
  name = trim_space el.name;
  target = trim_space el.target;
  alias_target = to_lower (trim_space el.alias_target);
}

abbrev pub entry_type : ExportLink → Result Text LinkType
entry_type el = link_type_from_string el.link_type

-- The target or the alias target, by the type.
unfoldable pub entry_target_valid : LinkType → ExportLink → Bool
entry_target_valid alias el = not (is_empty el.alias_target)
entry_target_valid simple el = elim (validate_target el.target) [ none ↦ true | some e ↦ false ]
entry_target_valid advanced el = elim (validate_target el.target) [ none ↦ true | some e ↦ false ]

-- The type of an entry that passes validation.
unfoldable pub valid_entry : ExportLink → Option LinkType
valid_entry el = elim (validate_name el.name) [
  | some e ↦ none
  | none ↦ elim (link_type_from_string el.link_type) [
    | err e ↦ none
    | ok t ↦ if entry_target_valid t el then some t else none
  ]
]

unfoldable pub tally : Entry → Text → ImportResult → ImportResult
tally was_created name r = record r { created = r.created + 1 }
tally was_updated name r = record r { updated = r.updated + 1 }
tally was_skipped name r = record r { skipped = r.skipped + 1; errors = r.errors ++ name ∷ [] }

tally-counts :
    (e : Entry) (name : Text) (r : ImportResult)
    → let r' = tally e name r in
      r'.created + r'.updated + r'.skipped ≡ r.created + r.updated + r.skipped + 1
unfolding tally
tally-counts was_created name r = omega arith
tally-counts was_updated name r = omega arith
tally-counts was_skipped name r = omega arith

abbrev pub email_or : Option Identity → Text
email_or none = []
email_or (some id) = id.email

unfoldable pub entry_owner : Option Identity → ExportLink → Text
entry_owner id el = if is_empty el.owner_email then email_or id else el.owner_email

module _ {S : Type 0} (repo : Repo S) (cfg : Config) where
  -- Errors are logged, and the next share is added.
  unfoldable pub add_shares : ℕ → List Text → S → S
  add_shares id [] s = s
  add_shares id (e ∷ es) s = add_shares id es (repo.add_share id e s).1

  abbrev pub settled_update : Result DbError Link × S → Entry × S
  settled_update (ok l, s) = (was_updated, s)
  settled_update (err e, s) = (was_skipped, s)

  unfoldable pub update_entry : LinkType → ExportLink → Link → S → Entry × S
  update_entry alias el existing s = settled_update (
      repo.set_alias existing.id el.name el.alias_target el.require_auth cfg.max_aliases_per_link s)
  update_entry simple el existing s =
      settled_update (repo.update existing.id el.name el.target simple el.require_auth s)
  update_entry advanced el existing s =
      settled_update (repo.update existing.id el.name el.target advanced el.require_auth s)

  abbrev pub settled_create : List Text → Result DbError Link × S → Entry × S
  settled_create shares (ok l, s) = (was_created, add_shares l.id shares s)
  settled_create shares (err e, s) = (was_skipped, s)

  unfoldable pub create_entry : Option Identity → LinkType → ExportLink → S → Entry × S
  create_entry id t el s =
      settled_create el.shares
        (repo.create el.name el.target (entry_owner id el) t el.alias_target el.require_auth s)

  unfoldable pub upsert :
      Option Identity → LinkType → ExportLink → Result DbError Link × S → Entry × S
  upsert id t el (ok existing, s) = update_entry t el existing s
  upsert id t el (err not_found, s) = create_entry id t el s
  upsert id t el (err e, s) = (was_skipped, s)

  unfoldable pub import_link : Option Identity → ExportLink → S → Entry × S
  import_link id given s =
      let el = normalised given in
      elim (valid_entry el) [
        | none ↦ (was_skipped, s)
        | some t ↦ upsert id t el (repo.get_by_name (to_lower el.name) s)
      ]

  unfoldable pub do_import : Option Identity → List ExportLink → ImportResult × S → ImportResult × S
  do_import id [] (r, s) = (r, s)
  do_import id (el ∷ els) (r, s) =
      let (entry, s') = import_link id el s in
      do_import id els (tally entry (trim_space el.name) r, s')

  abbrev pub no_result : ImportResult
  no_result = record { created = 0; updated = 0; skipped = 0; errors = [] }

  abbrev pub report : ImportResult × S → Result Response (Unit {0}) × S
  report (r, s) = (err (json 200 (import_body r)), s)

  -- Behind RequireAdmin.
  unfoldable pub handle_import : Option Identity → Request (List ExportLink) → Handler S (Unit {0})
  handle_import id body =
      decode_json_body body >>= λ els s. report (do_import id els (no_result, s))

  -- Every entry of an import is counted once: as created, updated or skipped.
  pub do_import-counts :
      (id : Option Identity) (els : List ExportLink) (r : ImportResult) (s : S)
      → let (out, s') = do_import id els (r, s) in
        out.created + out.updated + out.skipped ≡ r.created + r.updated + r.skipped + length els
  unfolding do_import
  do_import-counts id [] r s = omega arith
  do_import-counts id (el ∷ els) r s =
      let o = import_link id el s in
      let r' = tally o.0 (trim_space el.name) r in
      omega (arith, tally-counts o.0 (trim_space el.name) r, do_import-counts id els r' o.1)
