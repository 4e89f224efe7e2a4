-- ===== src/Db/Listing.antt =====
-- The listing operations of SQLLinkRepo in internal/db/link_repo.go. Each page comes with the
-- count of all rows that match, by a statement of its own.
use golink_url_shortener.Base.{
  ◌==◌, any, keep, count, Text, text_eq, ℕ, Bool, not, ◌&&◌, ◌||◌, none, some, List, [], ◌∷◌, map,
}
use golink_url_shortener.Base.{ok}
use golink_url_shortener.Db.Models.{Link, SortField, SortDir, sort_by_name, sort_asc}
use golink_url_shortener.Db.Sql.{Tables, Sql, ◌>>=◌, return, throw, exec}
use golink_url_shortener.Db.Rows.{has_owner, has_alias_target}
use golink_url_shortener.Db.Order.{validate_sort, order_by_clause, order_rows, page}
use golink_url_shortener.Db.Search.{parse_search_query, matches_search}

-- SELECT COUNT(*) FROM links WHERE ..., and SELECT ... ORDER BY ... LIMIT ? OFFSET ?
unfoldable pub select_page :
    (Tables → Link → Bool) → ℕ → ℕ → SortField → SortDir → Sql (List Link × ℕ)
select_page where_ limit offset field dir = do
  total ← exec (λ t. (ok (count (where_ t) t.links), t))
  rows ← exec (λ t. (
    ok (page limit offset (order_rows (order_by_clause field dir) (keep (where_ t) t.links))),
    t,
  ))
  return (rows, total)

-- The check of the sort parameters that comes first.
unfoldable pub sorted_page :
    (Tables → Link → Bool) → ℕ → ℕ → SortField → SortDir → Sql (List Link × ℕ)
sorted_page where_ limit offset field dir = elim (validate_sort field dir) [
  | some e ↦ throw e
  | none ↦ select_page where_ limit offset field dir
]

-- require_auth = 0, when only public links are wanted
abbrev pub is_visible : Bool → Link → Bool
is_visible public_only l = not public_only || not l.require_auth

unfoldable pub list : ℕ → ℕ → SortField → SortDir → Bool → Sql (List Link × ℕ)
list limit offset field dir public_only =
    sorted_page (λ t l. is_visible public_only l) limit offset field dir

unfoldable pub list_by_owner : Text → ℕ → ℕ → SortField → SortDir → Sql (List Link × ℕ)
list_by_owner owner limit offset field dir =
    sorted_page (λ t. has_owner owner) limit offset field dir

unfoldable pub search : Text → ℕ → ℕ → SortField → SortDir → Bool → Sql (List Link × ℕ)
search query limit offset field dir public_only =
    let (search_field, pattern) = parse_search_query query in
    sorted_page (λ t l. matches_search search_field pattern l && is_visible public_only l) limit
      offset field dir

-- id IN (SELECT link_id FROM link_shares WHERE shared_with_email IN (...))
unfoldable pub is_shared_with : List Text → Tables → Link → Bool
is_shared_with identifiers t l =
    any (λ s. s.link_id == l.id && any (text_eq s.shared_with_email) identifiers) t.shares

-- The two branches of the UNION: owned, and shared but not owned.
unfoldable pub is_owned_or_shared : Text → List Text → Tables → Link → Bool
is_owned_or_shared owner identifiers t l =
    has_owner owner l || (is_shared_with identifiers t l && not (has_owner owner l))

unfoldable pub list_owned_or_shared_with :
    Text → List Text → ℕ → ℕ → SortField → SortDir → Sql (List Link × ℕ)
list_owned_or_shared_with owner [] limit offset field dir =
    list_by_owner owner limit offset field dir
list_owned_or_shared_with owner (i ∷ is) limit offset field dir =
    sorted_page (is_owned_or_shared owner (i ∷ is)) limit offset field dir

unfoldable pub search_owned_or_shared_with :
    Text → List Text → Text → ℕ → ℕ → SortField → SortDir → Sql (List Link × ℕ)
search_owned_or_shared_with owner [] query limit offset field dir =
    let (search_field, pattern) = parse_search_query query in
    sorted_page (λ t l. has_owner owner l && matches_search search_field pattern l) limit offset
      field dir
search_owned_or_shared_with owner (i ∷ is) query limit offset field dir =
    let (search_field, pattern) = parse_search_query query in
    sorted_page
      (λ t l. is_owned_or_shared owner (i ∷ is) t l && matches_search search_field pattern l) limit
      offset field dir

-- The ids of the shares of some identifiers; no identifier, no query.
unfoldable pub shared_link_ids : List Text → Sql (List ℕ)
shared_link_ids [] = return []
shared_link_ids (i ∷ is) = exec (λ t. (
  ok (map (λ s. s.link_id) (keep (λ s. any (text_eq s.shared_with_email) (i ∷ is)) t.shares)),
  t,
))

unfoldable pub get_aliases : Text → Sql (List Link)
get_aliases name = exec (λ t.
    (ok (order_rows ((sort_by_name, sort_asc) ∷ []) (keep (has_alias_target name) t.links)), t))
