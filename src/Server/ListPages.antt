-- ===== src/Server/ListPages.antt =====
-- The landing page and the lists of links of internal/server/ui.go. A page number is taken to be so
-- small that its offset is an int.
use golink_url_shortener.Base.{
  if◌then◌else◌, length, keep, Text, codes, text_eq, is_empty, equal_fold, ℕ, ◌-◌, ◌*◌, Bool, true,
  false, not, Option, none, some, List, [], ◌∷◌, map,
}
use golink_url_shortener.Base.{Result, ok, err}
use golink_url_shortener.Config.{Config}
use golink_url_shortener.Db.Models.{
  Link, SortField, SortDir, sort_by_name, sort_by_created, sort_by_use_count, sort_by_target,
  sort_by_owner, sort_asc, sort_desc,
}
use golink_url_shortener.Db.Sql.{DbError}
use golink_url_shortener.Db.Repo.{Repo, Call}
use golink_url_shortener.Server.Handler.{
  Identity, Handler, ◌>>=◌, return, reply, call, internal_error,
}
use golink_url_shortener.Server.Paging.{total_pages, page_param, page_range}
use golink_url_shortener.Server.Pages.{BaseData, unauthorized, base_or_reply}

pub record IndexData : Type 0 where
  pub base : BaseData
  pub recent_links : List Link
  pub popular_links : List Link

-- The link ids that OwnedIDs and SharedIDs map to true are lists here.
pub record LinksPageData : Type 0 where
  pub base : BaseData
  pub links : List Link
  pub query : Text
  pub page : ℕ
  pub total_pages : ℕ
  pub total : ℕ
  pub page_start : ℕ
  pub page_end : ℕ
  pub sort : Text
  pub dir : Text
  pub owned_ids : List ℕ
  pub shared_ids : List ℕ

-- The query parameters of a list: `page` as strconv.Atoi reads it.
pub record ListQuery : Type 0 where
  pub q : Text
  pub page : Option ℕ
  pub sort : Text
  pub dir : Text

pub record SortParams : Type 0 where
  pub field : SortField
  pub direction : SortDir
  pub sort : Text
  pub dir : Text

-- The switch on the sort parameter: the column, and the parameter that the page shows.
unfoldable pub sort_column : Text → SortField × Text
sort_column sort =
    if text_eq sort (codes "target")
    then (sort_by_target, sort)
    else if text_eq sort (codes "uses")
    then (sort_by_use_count, sort)
    else if text_eq sort (codes "owner")
    then (sort_by_owner, sort)
    else if text_eq sort (codes "name")
    then (sort_by_name, sort)
    else (sort_by_name, codes "name")

unfoldable pub sort_direction : Text → SortDir × Text
sort_direction dir =
    if text_eq dir (codes "desc") then (sort_desc, dir) else (sort_asc, codes "asc")

unfoldable pub parse_sort_params : ListQuery → SortParams
parse_sort_params p = record {
  field = (sort_column p.sort).0;
  direction = (sort_direction p.dir).0;
  sort = (sort_column p.sort).1;
  dir = (sort_direction p.dir).1;
}

abbrev pub is_anonymous : Option Identity → Bool
is_anonymous none = true
is_anonymous (some id) = false

abbrev pub identifiers : Identity → List Text
identifiers id = id.email ∷ id.groups

-- The rows of a list; an error is logged, and the list stays empty.
abbrev pub rows_or_none : {S : Type 0} → Result DbError (List Link × ℕ) × S → List Link × S
rows_or_none (ok (rows, total), s) = (rows, s)
rows_or_none (err e, s) = ([], s)

abbrev pub ids_or_none : {S : Type 0} → Result DbError (List ℕ) × S → List ℕ × S
ids_or_none (ok ids, s) = (ids, s)
ids_or_none (err e, s) = ([], s)

module _ (cfg : Config) (version : Text) where
  module _ {S : Type 0} (repo : Repo S) where
    -- The newest links of the user who is signed in.
    unfoldable pub recent_links : Option Identity → S → List Link × S
    recent_links none s = ([], s)
    recent_links (some id) s =
        rows_or_none (repo.list_by_owner id.email 5 0 sort_by_created sort_desc s)

    unfoldable pub popular_links : Option Identity → S → List Link × S
    popular_links id s =
        rows_or_none (repo.list_links 5 0 sort_by_use_count sort_desc (is_anonymous id) s)

    unfoldable pub index_data : BaseData → Option Identity → Handler S IndexData
    index_data base id s =
        let (recent, s') = recent_links id s in
        let (popular, s'') = popular_links id s' in
        (ok (record { base = base; recent_links = recent; popular_links = popular }), s'')

    unfoldable pub handle_index : Option Text → Option Identity → Handler S IndexData
    handle_index token id = base_or_reply cfg version token id >>= λ base. index_data base id

    -- The page that both lists show, from its rows and the count of all rows.
    unfoldable pub links_page :
        BaseData → ListQuery → List ℕ → List ℕ → List Link × ℕ → LinksPageData
    links_page base p owned shared (rows, total) =
        let page = page_param p.page in
        let range = page_range page cfg.links_per_page (length rows) total in
        record {
          base = base;
          links = rows;
          query = p.q;
          page = page;
          total_pages = total_pages total cfg.links_per_page;
          total = total;
          page_start = range.0;
          page_end = range.1;
          sort = (parse_sort_params p).sort;
          dir = (parse_sort_params p).dir;
          owned_ids = owned;
          shared_ids = shared;
        }

    abbrev pub offset_of : ListQuery → ℕ
    offset_of p = (page_param p.page - 1) * cfg.links_per_page

    unfoldable pub list_or_search : ListQuery → Bool → Call S (List Link × ℕ)
    list_or_search p public_only =
        let sorted = parse_sort_params p in
        if not (is_empty p.q)
        then repo.search_links p.q cfg.links_per_page (offset_of p) sorted.field sorted.direction
            public_only
        else repo.list_links cfg.links_per_page (offset_of p) sorted.field sorted.direction
            public_only

    abbrev pub shared_or_none : Option Identity → S → List ℕ × S
    shared_or_none none s = ([], s)
    shared_or_none (some id) s = ids_or_none (repo.shared_link_ids (identifiers id) s)

    abbrev pub owned_ids : Option Identity → List Link → List ℕ
    owned_ids none ls = []
    owned_ids (some id) ls = map (λ l. l.id) (keep (λ l. equal_fold l.owner_email id.email) ls)

    unfoldable pub marked_page :
        BaseData → ListQuery → Option Identity → List Link × ℕ → Handler S LinksPageData
    marked_page base p id rows s =
        let (shared, s') = shared_or_none id s in
        (ok (links_page base p (owned_ids id rows.0) shared rows), s')

    unfoldable pub handle_links :
        Option Text → Option Identity → ListQuery → Handler S LinksPageData
    handle_links token id p = do
      base ← base_or_reply cfg version token id
      rows ← call (list_or_search p (is_anonymous id)) (λ e. internal_error)
      marked_page base p id rows

    unfoldable pub own_or_search : ListQuery → Identity → Call S (List Link × ℕ)
    own_or_search p id =
        let sorted = parse_sort_params p in
        if not (is_empty p.q)
        then repo.search_owned_or_shared_with id.email (identifiers id) p.q cfg.links_per_page
            (offset_of p) sorted.field sorted.direction
        else repo.list_owned_or_shared_with id.email (identifiers id) cfg.links_per_page
            (offset_of p) sorted.field sorted.direction

    unfoldable pub my_links : BaseData → ListQuery → Option Identity → Handler S LinksPageData
    my_links base p none = reply unauthorized
    my_links base p (some id) = do
      rows ← call (own_or_search p id) (λ e. internal_error)
      return (
          links_page base p []
            (map (λ l. l.id) (keep (λ l. not (equal_fold l.owner_email id.email)) rows.0)) rows)

    unfoldable pub handle_my_links :
        Option Text → Option Identity → ListQuery → Handler S LinksPageData
    handle_my_links token id p = base_or_reply cfg version token id >>= λ base. my_links base p id
