-- ===== src/Tests/DbTests.antt =====
-- internal/db at concrete inputs.
use golink_url_shortener.Base.{
  find, count, codes, text_eq, is_upper, lower, to_lower, strip_prefix, ◌+◌, ◌≤◌, ◌≡◌, refl, true,
  false, some, List, [], ◌∷◌, map, arith,
}
use golink_url_shortener.Db.Found
use golink_url_shortener.Db.Found.{found}
use golink_url_shortener.Db.Search.{like, parse_search_query, split_field}
use golink_url_shortener.Db.Models.{Link, alias}
use golink_url_shortener.Db.Sql.{driver_error, exec, finish, begin_result, transaction}
use golink_url_shortener.Db.Rows.{has_id, has_alias_target, update_where, name_taken}
use golink_url_shortener.Db.LinkRepo.{
  set_alias, set_alias_body, name_of, count_aliases, reparent_and_convert, reparent, reparent_links,
  convert, rename_link, aliased_link,
}
use golink_url_shortener.Db.Invariant.{IsSound}
use golink_url_shortener.Db.Histories
use golink_url_shortener.Db.Histories.{Change, apply_all}
use golink_url_shortener.Db.SetAlias
use golink_url_shortener.Db.SetAlias.{with_links}
use golink_url_shortener.Db.AliasLimit
use golink_url_shortener.Db.UseCounter.{UseCounter, new_use_counter}
use golink_url_shortener.Db.UseTotals
use golink_url_shortener.Db.UseTotals.{
  Event, ledger, happen_all, times_used, final_flush, fault_free, uses, owed,
}
use golink_url_shortener.Tests.Fixtures.{docs, tables, db, faulty_db}

pub tables-IsSound : IsSound tables
unfolding to_lower lower is_upper
tables-IsSound = record {
  names = (((λ e. cc), tt), (tt, tt));
  ids = (((λ e. omega arith), tt), (tt, tt));
  lowered = (refl, (refl, tt));
  fresh = (omega arith, (omega arith, tt));
}

-- `docs` becomes an alias of itself's only alias's name, and then is deleted.
abbrev changes : List Change
changes =
    Histories.create (codes "New") (codes "https://n.example.com") (codes "x@example.com") alias
      (codes "docs") false
    ∷ Histories.set_alias 1 (codes "Docs") (codes "d") false 5
    ∷ Histories.delete 1
    ∷ []

apply_all-IsSound_example : IsSound (apply_all changes faulty_db).tables
apply_all-IsSound_example = Histories.apply_all-IsSound changes faulty_db tables-IsSound

set_alias_atomic_example :
    (set_alias 1 (codes "Docs") (codes "d") false 5 faulty_db).1.tables ≡ faulty_db.tables
unfolding set_alias set_alias_body name_of transaction begin_result finish exec
set_alias_atomic_example =
    SetAlias.set_alias_atomic 1 (codes "Docs") (codes "d") false 5 faulty_db driver_error refl

-- The alias `d` is moved along when `docs` becomes an alias of a third name.
abbrev moved_link : Link
moved_link = record docs {
  target = [];
  link_type = alias;
  alias_target = codes "other";
  require_auth = false;
}

set_alias-effect_example :
    (cur : Link) × (find (has_id 1) db.tables.links ≡ some cur)
    × (count (has_alias_target (codes "other")) db.tables.links
          + count (has_alias_target cur.name_lower) db.tables.links
          + 1
        ≤ 5)
    × ((set_alias 1 (codes "Docs") (codes "other") false 5 db).1.tables
        ≡ with_links db.tables (
            map
              (SetAlias.moved_link 1 cur.name_lower (codes "Docs") (codes "other") false)
              db.tables.links))
unfolding set_alias set_alias_body name_of count_aliases reparent_and_convert reparent
    reparent_links convert rename_link aliased_link transaction begin_result finish exec name_taken
    update_where to_lower lower is_upper text_eq
set_alias-effect_example =
    SetAlias.set_alias-effect 1 (codes "Docs") (codes "other") false 5 db moved_link refl

set_alias-limit_example :
    count
      (has_alias_target (codes "other"))
      (set_alias 1 (codes "Docs") (codes "other") false 5 db).1.tables.links
    ≤ 5
unfolding set_alias set_alias_body name_of count_aliases reparent_and_convert reparent
    reparent_links convert rename_link aliased_link transaction begin_result finish exec name_taken
    update_where to_lower lower is_upper text_eq
set_alias-limit_example =
    AliasLimit.set_alias-limit 1 (codes "Docs") (codes "other") false 5 db moved_link tables-IsSound
      refl

-- Two uses of `docs` around a flush, and one of a link that is not there.
abbrev events : List Event
events =
    UseTotals.used 1 ∷ UseTotals.swap ∷ UseTotals.used 1 ∷ UseTotals.used 7 ∷ UseTotals.write ∷ []

happen_all-ledger_example :
    ledger 1 (happen_all events (new_use_counter, fault_free tables))
    ≡ ledger 1 (new_use_counter, fault_free tables) + times_used 1 events
happen_all-ledger_example = UseTotals.happen_all-ledger events 1 new_use_counter tables refl

abbrev busy : UseCounter
busy = record {
  counts = (1, 3) ∷ (2, 1) ∷ [];
  taken = [];
  nudged = true;
  closed = true;
  done = false;
}

final_flush-uses_example :
    uses 1 (happen_all (final_flush busy) (busy, fault_free tables)).1.tables.links
    ≡ uses 1 tables.links + owed 1 busy.counts
final_flush-uses_example = UseTotals.final_flush-uses 1 busy tables refl refl

parse_search_query-found_example :
    like (parse_search_query (codes "n:^Do")).1 (codes "docs")
    ≡ found true false (to_lower (codes "do")) (to_lower (codes "docs"))
unfolding split_field strip_prefix to_lower lower is_upper
parse_search_query-found_example =
    Found.parse_search_query-found (codes "n:^Do") (codes "do") (codes "docs") true false refl refl
