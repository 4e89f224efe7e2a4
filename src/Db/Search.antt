-- ===== src/Db/Search.antt =====
-- The search syntax of internal/db/link_repo.go: parseSearchQuery and buildSearchMatchExpr, with
-- what SQLite's LIKE means: `%` is any text, `_` any character, and letters match in any case.
use golink_url_shortener.Base.{
  ◌==◌, if◌then◌else◌, Text, codes, lower, to_lower, strip_prefix, strip_suffix, Bool, true, false,
  ◌&&◌, ◌||◌, none, some, List, [], ◌∷◌, ◌++◌,
}
use golink_url_shortener.Db.Models.{Link}

pub data SearchField : Type 0 where
  search_all search_name search_target search_alias search_owner : SearchField

-- The prefixes that choose a field, in the order in which they are tried.
abbrev pub field_prefixes : List (Text × SearchField)
field_prefixes =
    (codes "name:", search_name)
    ∷ (codes "n:", search_name)
    ∷ (codes "target:", search_target)
    ∷ (codes "t:", search_target)
    ∷ (codes "alias:", search_alias)
    ∷ (codes "a:", search_alias)
    ∷ (codes "owner:", search_owner)
    ∷ (codes "o:", search_owner)
    ∷ []

unfoldable pub split_field : List (Text × SearchField) → Text → SearchField × Text
split_field [] q = (search_all, q)
split_field ((prefix, field) ∷ more) q = elim (strip_prefix q prefix) [
  | some rest ↦ (field, rest)
  | none ↦ split_field more q
]

-- The anchors `^` and `$`: what stands before the query in the pattern, and what is left of it.
unfoldable pub open_start : Text → Text × Text
open_start q = elim (strip_prefix q (codes "^")) [ some rest ↦ ([], rest) | none ↦ (codes "%", q) ]

unfoldable pub open_end : Text → Text × Text
open_end q = elim (strip_suffix q (codes "$")) [ some rest ↦ (rest, []) | none ↦ (q, codes "%") ]

unfoldable pub parse_search_query : Text → SearchField × Text
parse_search_query query =
    let (field, q) = split_field field_prefixes query in
    let (prefix, q') = open_start (to_lower q) in
    let (body, suffix) = open_end q' in (field, prefix ++ body ++ suffix)

-- column LIKE pattern
unfoldable pub like : Text → Text → Bool
like [] [] = true
like [] (c ∷ s) = false
like (p ∷ ps) [] = p == b'%' && like ps []
like (p ∷ ps) (c ∷ s) =
    let any_text = like ps (c ∷ s) || like (p ∷ ps) s in
    let any_char = like ps s in
    if p == b'%' then any_text else if p == b'_' then any_char else lower p == lower c && any_char

unfoldable pub matches_search : SearchField → Text → Link → Bool
matches_search search_name pattern l = like pattern l.name_lower
matches_search search_target pattern l = like pattern (to_lower l.target)
matches_search search_alias pattern l = like pattern l.alias_target
matches_search search_owner pattern l = like pattern (to_lower l.owner_email)
matches_search search_all pattern l =
    like pattern l.name_lower
    || like pattern (to_lower l.target)
    || like pattern l.alias_target
    || like pattern (to_lower l.owner_email)
