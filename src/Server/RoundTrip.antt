-- ===== src/Server/RoundTrip.antt =====
-- The round trip of an export and an import.
use golink_url_shortener.Base.{
  length, any, find, All, Text, ℕ, ◌<◌, ◌≡◌, refl, sym, ap, ◌∙◌, false, ◌&&◌, ◌||◌, Option, none,
  some, List, [], ◌∷◌, map, arith,
}
use mathlib.Core.Path.{subst}
use golink_url_shortener.Config.{Config}
use golink_url_shortener.Db.Models.{Link, sort_by_name, sort_asc}
use golink_url_shortener.Db.Sql.{Tables, Db}
use golink_url_shortener.Db.Distinct.{Distinct}
use golink_url_shortener.Db.LinkRepo.{is_share}
use golink_url_shortener.Db.Order.{order_by_clause, order_rows}
use golink_url_shortener.Db.Rows.{has_name}
use golink_url_shortener.Db.Repo.{sql_repo}
use golink_url_shortener.Db.Selected.{All-order_rows, length-order_rows}
use golink_url_shortener.Db.Ordered.{any-order_rows, order_rows-Distinct, find-order_rows}
use golink_url_shortener.Db.UseTotals.{fault_free}
use golink_url_shortener.Server.Handler.{Identity, ImportResult}
use golink_url_shortener.Server.Import.{ExportLink, do_import, no_result}
use golink_url_shortener.Server.Export.{
  handle_export, all_rows, exported, keep-visible, handle_export-rows,
}
use golink_url_shortener.Server.Restored.{shared, IsPortable}
use golink_url_shortener.Server.Importable.{
  content_of, or_else, Ready, Restores, do_import-Restores,
}

-- Tables hold the same links with the same shares as others, apart from numbers and uses.
pub record Same (t t' : Tables) : Type 0 where
  pub contents :
      (name : Text)
      → content_of (find (has_name name) t'.links) ≡ content_of (find (has_name name) t.links)
  pub shares : (name e : Text) → shared name e t'.shares t'.links ≡ shared name e t.shares t.links

-- All links were created, and are what they were.
abbrev pub Restored : Tables → ImportResult × Db → Type 0
Restored t (r, db) =
    (r.created ≡ length t.links) × (r.updated ≡ 0) × (r.skipped ≡ 0) × Same t db.tables

abbrev rows : Tables → List Link
rows t = order_rows (order_by_clause sort_by_name sort_asc) t.links

rows-Ready :
    (t t0 : Tables)
    → All IsPortable t.links
    → Distinct (λ l. l.name_lower) t.links
    → t0.links ≡ []
    → t0.shares ≡ []
    → Ready (rows t) t0
rows-Ready t t0 portable distinct no_links no_shares = record {
  portable = All-order_rows IsPortable (order_by_clause sort_by_name sort_asc) t.links portable;
  distinct = order_rows-Distinct (order_by_clause sort_by_name sort_asc) t.links distinct;
  free = everywhere (rows t);
  below = subst (All (λ m. m.id < t0.next_link_id)) (sym no_links) tt;
  unshared = λ j e h. ap (any (is_share j e)) no_shares;
}
  where
    everywhere : (ls : List Link) → All (λ l. any (has_name l.name_lower) t0.links ≡ false) ls
    everywhere [] = tt
    everywhere (l ∷ ls) = (ap (any (has_name l.name_lower)) no_links, everywhere ls)

rows-Same :
    (t t0 t' : Tables)
    → Distinct (λ l. l.name_lower) t.links
    → t0.links ≡ []
    → Restores (rows t) t.shares t0 t'
    → Same t t'
rows-Same t t0 t' distinct no_links r = record {
  contents = λ name.
      r.contents name
      ∙ ap (λ ls. content_of (or_else (find (has_name name) (rows t)) (find (has_name name) ls)))
          no_links
      ∙ ap content_of (or_else-none (find (has_name name) (rows t)))
      ∙ ap content_of
          (find-order_rows (order_by_clause sort_by_name sort_asc) name t.links distinct);
  shares = λ name e.
      r.shares name e
      ∙ ap (λ ls. shared name e t.shares (rows t) || shared name e t0.shares ls) no_links
      ∙ ground (
        arith,
        any-order_rows (order_by_clause sort_by_name sort_asc)
            (λ l. has_name name l && any (is_share l.id e) t.shares) t.links,
      );
}
  where
    or_else-none : (o : Option Link) → or_else o none ≡ o
    or_else-none none = refl
    or_else-none (some l) = refl

module _ (cfg : Config) where
  -- An export of links that an import accepts, whose names differ, can be imported into tables
  -- without links and shares, where no statement fails: every link is created, and afterwards each
  -- name leads to the same content and is shared with the same addresses as before.
  pub do_import-handle_export :
      (id : Option Identity) (fuel : ℕ) (t t0 : Tables)
      → length (all_rows t) < fuel
      → All IsPortable t.links
      → Distinct (λ l. l.name_lower) t.links
      → t0.links ≡ []
      → t0.shares ≡ []
      → Restored t (
          do_import sql_repo cfg id
            (handle_export sql_repo fuel (fault_free t)).0
            (no_result sql_repo cfg, fault_free t0))
  do_import-handle_export id fuel t t0 enough portable distinct no_links no_shares =
      let (r, t', e, (created, updated, skipped), restores) =
        do_import-Restores cfg id t (rows t) (no_result sql_repo cfg) t0
          (rows-Ready t t0 portable distinct no_links no_shares) in
      let els =
        ap (λ (o : List ExportLink × Db). o.0) (handle_export-rows fuel t enough)
        ∙ ap (λ ls. map (exported t) (order_rows (order_by_clause sort_by_name sort_asc) ls))
            (keep-visible t.links) in
      subst (Restored t)
        (sym (
          ap (λ els. do_import sql_repo cfg id els (no_result sql_repo cfg, fault_free t0)) els
          ∙ e))
        (
          omega (arith, created, length-order_rows (order_by_clause sort_by_name sort_asc) t.links),
          updated,
          skipped,
          rows-Same t t0 t' distinct no_links restores,
        )
