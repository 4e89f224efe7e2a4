-- ===== src/Server/Visitors.antt =====
-- What the pages of internal/server/ui.go show to visitors without an identity.
use golink_url_shortener.Base.{
  All, All-imply, Text, ℕ, ◌≡◌, refl, sym, ap, true, false, Option, none, List, [], arith,
}
use mathlib.Core.Path.{subst}
use golink_url_shortener.Base.{Result, ok, err}
use golink_url_shortener.Config.{Config}
use golink_url_shortener.Db.Models.{Link, sort_by_use_count, sort_desc}
use golink_url_shortener.Db.Sql.{Db, DbError}
use golink_url_shortener.Db.Listing
use golink_url_shortener.Db.Repo.{sql_repo}
use golink_url_shortener.Db.Selected.{sorted_page-Selects}
use golink_url_shortener.Server.Pages.{base_or_reply}
use golink_url_shortener.Server.ListPages.{
  IndexData, LinksPageData, ListQuery, recent_links, popular_links, index_data, handle_index,
  links_page, handle_links, rows_or_none,
}
use golink_url_shortener.Server.Shown.{handler-ok, ok_inj, handle_links-Selects}

module _ (cfg : Config) (version : Text) where
  abbrev IsPublic : Link → Type 0
  IsPublic l = l.require_auth ≡ false

  public : (l : Link) → Listing.is_visible true l ≡ true → IsPublic l
  public l h = ground arith

  popular_links-IsPublic : (db : Db) → All IsPublic (popular_links cfg version sql_repo none db).0
  unfolding popular_links Listing.list
  popular_links-IsPublic db = go (Listing.list 5 0 sort_by_use_count sort_desc true db) refl
    where
      go :
          (r : Result DbError (List Link × ℕ) × Db)
          → Listing.list 5 0 sort_by_use_count sort_desc true db ≡ r
          → All IsPublic (rows_or_none r).0
      go (err e, db') h = tt
      go (ok (rows, total), db') h =
          let s =
            sorted_page-Selects (λ t l. Listing.is_visible true l) 5 0 sort_by_use_count sort_desc
              db rows total (ap (λ (q : Result DbError (List Link × ℕ) × Db). q.0) h) in
          All-imply (λ l. Listing.is_visible true l ≡ true) IsPublic public rows s.selected

  -- A visitor without an identity is shown no link that requires authentication: the landing page
  -- shows none and no recent links, and neither does a page of the list, searched or not.
  pub visitors-IsPublic :
      (token : Option Text) (p : ListQuery) (db : Db)
      → ((index : IndexData)
          → (handle_index cfg version sql_repo token none db).0 ≡ ok index
          → (index.recent_links ≡ []) × All IsPublic index.popular_links)
        × ((page : LinksPageData)
            → (handle_links cfg version sql_repo token none p db).0 ≡ ok page
            → All IsPublic page.links)
  unfolding handle_index index_data recent_links links_page
  visitors-IsPublic token p db = (
    λ index h.
        let (base, db', based, rest) = handler-ok (base_or_reply cfg version token none) _ db h in
        let e = ok_inj rest in
        (
          ap (λ (i : IndexData). i.recent_links) (sym e),
          subst (λ (i : IndexData). All IsPublic i.popular_links) e (popular_links-IsPublic db'),
        ),
    λ page h.
        let (rows, test, base, owned, shared, visible, s, e) =
          handle_links-Selects cfg version token none p db page h in
        subst (λ (q : LinksPageData). All IsPublic q.links) e
          (All-imply (λ l. test l ≡ true) IsPublic (λ l k. public l (visible l k)) rows.0
            s.selected),
  )
