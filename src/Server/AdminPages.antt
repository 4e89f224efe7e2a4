-- ===== src/Server/AdminPages.antt =====
-- The pages for administrators: internal/server/apikeys_ui.go, reassign_ui.go and importexport_ui.go.
use golink_url_shortener.Base.{
  if◌then◌else◌, Text, codes, text_eq, is_empty, equal_fold, trim_space, ℕ, Bool, true, false, not,
  ◌||◌, Option, none, some, List, [],
}
use golink_url_shortener.Base.{Result, ok, err}
use golink_url_shortener.Config.{Config}
use golink_url_shortener.Db.Models.{ApiKey}
use golink_url_shortener.Db.Sql.{Db, DbError}
use golink_url_shortener.Db.ApiKeyRepo
use golink_url_shortener.Db.Repo.{Repo}
use golink_url_shortener.Server.Handler.{
  Identity, Problem, message, failed, ImportResult, Response, redirect, failure, Handler, ◌>>=◌,
  ◌>>◌, return, reply, call, on_not_found, internal_error,
}
use golink_url_shortener.Server.Import.{ExportLink, do_import, no_result}
use golink_url_shortener.Server.Pages.{BaseData, base_or_reply}
use golink_url_shortener.Server.Ui.{Csrf, require_csrf, page_not_found}

pub record ApiKeysPageData : Type 0 where
  pub base : BaseData
  pub keys : List ApiKey
  pub new_key : Text
  pub error : Option Problem

pub record ReassignPageData : Type 0 where
  pub base : BaseData
  pub from_email : Text
  pub to_email : Text
  pub done : Bool
  pub reassigned : ℕ
  pub error : Option Problem

pub record ImportExportPageData : Type 0 where
  pub base : BaseData
  pub result : Option ImportResult
  pub error : Option Problem

-- The upload as ParseMultipartForm, FormFile and the JSON decoder read it.
pub data Upload : Type 0 where
  bad_form no_file bad_json_file : Upload
  uploaded : List ExportLink → Upload

-- The keys of a list; an error leaves it empty.
abbrev pub keys_or_none : Result DbError (List ApiKey) × Db → List ApiKey × Db
keys_or_none (ok keys, db) = (keys, db)
keys_or_none (err e, db) = ([], db)

module _ (cfg : Config) (version : Text) where
  unfoldable pub handle_api_keys_page : Option Text → Option Identity → Handler Db ApiKeysPageData
  handle_api_keys_page token id = do
    base ← base_or_reply cfg version token id
    keys ← call ApiKeyRepo.list_keys (λ e. internal_error)
    return (record { base = base; keys = keys; new_key = []; error = none })

  -- The page with all keys, after an error or with the new key.
  unfoldable pub api_keys_page : BaseData → Text → Option Problem → Handler Db ApiKeysPageData
  api_keys_page base new_key error db =
      let (keys, db') = keys_or_none (ApiKeyRepo.list_keys db) in
      (ok (record { base = base; keys = keys; new_key = new_key; error = error }), db')

  abbrev pub key_created :
      BaseData → Text → Result DbError ApiKey × Db → Result Response ApiKeysPageData × Db
  key_created base raw (ok k, db) = api_keys_page base raw none db
  key_created base raw (err e, db) = api_keys_page base [] (some (failed e)) db

  module _ (hash : Text → Text) where
    unfoldable pub add_key : BaseData → Identity → Text → Bool → Text → Handler Db ApiKeysPageData
    add_key base id name read_only raw db =
        key_created base raw (ApiKeyRepo.create name (hash raw) id.email read_only db)

    abbrev pub generated_key :
        BaseData → Identity → Text → Bool → Option Text → Handler Db ApiKeysPageData
    generated_key base id name read_only none =
        api_keys_page base [] (some (message (codes "Could not generate API key.")))
    generated_key base id name read_only (some raw) = add_key base id name read_only raw

    -- `fresh` is what generateAPIKey yields; the name and the scope are those of the form.
    unfoldable pub key_form :
        Option Text → BaseData → Option Identity → Text → Text → Handler Db ApiKeysPageData
    key_form fresh base none name read_only = reply (redirect 302 (codes "/auth/login?rd=/apikeys"))
    key_form fresh base (some id) name read_only =
        if is_empty (trim_space name)
        then api_keys_page base [] (some (message (codes "Key description is required.")))
        else generated_key base id (trim_space name) (not (text_eq read_only (codes "false"))) fresh

    unfoldable pub handle_create_api_key :
        Option Text
        → Option Text
        → Option Identity
        → Csrf
        → Text
        → Text
        → Handler Db ApiKeysPageData
    handle_create_api_key fresh token id csrf name read_only = do
      base ← base_or_reply cfg version token id
      require_csrf csrf
      key_form fresh base id name read_only

  unfoldable pub delete_key_of : Option ℕ → Handler Db (Unit {0})
  delete_key_of none = reply (failure 400 (message (codes "invalid id")))
  delete_key_of (some id) = do
    call (ApiKeyRepo.delete id) (on_not_found page_not_found internal_error)
    reply (redirect 302 (codes "/apikeys"))

  -- The id as strconv.ParseInt reads it; a number below 0 is the id of no key.
  unfoldable pub handle_delete_api_key : Csrf → Option ℕ → Handler Db (Unit {0})
  handle_delete_api_key csrf id = require_csrf csrf >> delete_key_of id

  unfoldable pub reassign_page :
      BaseData → Text → Text → Bool → ℕ → Option Problem → ReassignPageData
  reassign_page base from to done n error = record {
    base = base;
    from_email = from;
    to_email = to;
    done = done;
    reassigned = n;
    error = error;
  }

  unfoldable pub handle_reassign_page :
      {S : Type 0} → Option Text → Option Identity → Handler S ReassignPageData
  handle_reassign_page token id =
      base_or_reply cfg version token id >>= λ base. return (reassign_page base [] [] false 0 none)

  unfoldable pub handle_import_export_page :
      {S : Type 0} → Option Text → Option Identity → Handler S ImportExportPageData
  handle_import_export_page token id = base_or_reply cfg version token id >>= λ base.
      return (record { base = base; result = none; error = none })

  module _ {S : Type 0} (repo : Repo S) where
    abbrev pub reassigned :
        BaseData → Text → Text → Result DbError ℕ × S → Result Response ReassignPageData × S
    reassigned base from to (ok n, s) = (ok (reassign_page base from to true n none), s)
    reassigned base from to (err e, s) =
        (ok (reassign_page base from to false 0 (some (failed e))), s)

    unfoldable pub reassign_form : BaseData → Text → Text → Handler S ReassignPageData
    reassign_form base from to s =
        if is_empty from || is_empty to
        then (
          ok (
              reassign_page base from to false 0
                (some (message (codes "Both 'from' and 'to' email addresses are required.")))),
          s,
        )
        else if equal_fold from to
        then (
          ok (
              reassign_page base from to false 0
                (some (message (codes "'From' and 'To' addresses must be different.")))),
          s,
        )
        else reassigned base from to (repo.reassign_links from to s)

    unfoldable pub handle_reassign_links :
        Option Text → Option Identity → Csrf → Text → Text → Handler S ReassignPageData
    handle_reassign_links token id csrf from to = do
      base ← base_or_reply cfg version token id
      require_csrf csrf
      reassign_form base (trim_space from) (trim_space to)

    abbrev pub imported : BaseData → ImportResult × S → Result Response ImportExportPageData × S
    imported base (r, s) = (ok (record { base = base; result = some r; error = none }), s)

    abbrev pub import_error : BaseData → Text → Handler S ImportExportPageData
    import_error base text =
        return (record { base = base; result = none; error = some (message text) })

    unfoldable pub import_upload :
        BaseData → Option Identity → Upload → Handler S ImportExportPageData
    import_upload base id bad_form = import_error base (codes "Could not parse form")
    import_upload base id no_file = import_error base (codes "No file uploaded.")
    import_upload base id bad_json_file = import_error base (codes "Invalid JSON file")
    import_upload base id (uploaded els) =
        λ s. imported base (do_import repo cfg id els (no_result repo cfg, s))

    unfoldable pub handle_import_upload :
        Option Text → Option Identity → Csrf → Upload → Handler S ImportExportPageData
    handle_import_upload token id csrf upload = do
      base ← base_or_reply cfg version token id
      require_csrf csrf
      import_upload base id upload
