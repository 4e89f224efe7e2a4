-- ===== src/Server/AdminForms.antt =====
-- The forms for administrators change nothing without a valid CSRF token.
use golink_url_shortener.Base.{
  Bool-cases, Text, ℕ, ◌≡◌, refl, ◌⊎◌, inl, inr, true, Option, none, some,
}
use golink_url_shortener.Config.{Config}
use golink_url_shortener.Db.Sql.{Db}
use golink_url_shortener.Db.Repo.{Repo}
use golink_url_shortener.Server.Handler.{Identity, Handler, ◌>>=◌}
use golink_url_shortener.Server.Pages.{BaseData, new_base_data, base_or_reply}
use golink_url_shortener.Server.Ui.{Csrf, validate_csrf, require_csrf}
use golink_url_shortener.Server.AdminPages.{
  Upload, handle_create_api_key, handle_delete_api_key, handle_reassign_links, handle_import_upload,
}

module _ (cfg : Config) (version : Text) where
  valid_only :
      {S A : Type 0} (token : Option Text) (id : Option Identity) (csrf : Csrf)
      (f : BaseData → Handler S A) (s : S)
      → let h =
          base_or_reply cfg version token id >>= λ base. (require_csrf csrf >>= λ _. f base) in
        ((h s).1 ≡ s) ⊎ (validate_csrf csrf ≡ true)
  unfolding new_base_data
  valid_only none id csrf f s = inl refl
  valid_only (some token) id csrf f s = elim (Bool-cases (validate_csrf csrf)) [
    | inr forged ↦ inl (rw forged refl)
    | inl valid ↦ inr valid
  ]

  -- The forms that create and delete an API key, reassign links and import links change nothing, not
  -- even the state of the statements to come, unless the CSRF token of the form is that of the cookie.
  pub admin_forms-valid :
      {S : Type 0} (repo : Repo S) (hash : Text → Text) (fresh token : Option Text)
      (user : Option Identity) (csrf : Csrf) (name read_only : Text) (id : Option ℕ)
      (from to : Text) (upload : Upload) (db : Db) (s : S)
      → (((handle_create_api_key cfg version hash fresh token user csrf name read_only db).1 ≡ db)
          ⊎ (validate_csrf csrf ≡ true))
        × (((handle_delete_api_key cfg version csrf id db).1 ≡ db) ⊎ (validate_csrf csrf ≡ true))
        × (((handle_reassign_links cfg version repo token user csrf from to s).1 ≡ s)
            ⊎ (validate_csrf csrf ≡ true))
        × (((handle_import_upload cfg version repo token user csrf upload s).1 ≡ s)
            ⊎ (validate_csrf csrf ≡ true))
  unfolding handle_create_api_key handle_delete_api_key handle_reassign_links handle_import_upload
  admin_forms-valid repo hash fresh token user csrf name read_only id from to upload db s = (
    valid_only token user csrf _ db,
    elim (Bool-cases (validate_csrf csrf)) [
      | inr forged ↦ inl (rw forged refl)
      | inl valid ↦ inr valid
    ],
    valid_only token user csrf _ s,
    valid_only token user csrf _ s,
  )
