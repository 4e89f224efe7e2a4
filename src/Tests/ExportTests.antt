-- ===== src/Tests/ExportTests.antt =====
-- The export and its import at concrete inputs.
use golink_url_shortener.Base.{
  count, text_eq, is_empty, is_upper, is_lower, is_digit, lower, to_lower, strip_prefix, has_prefix,
  is_space, trim_left, trim_right, trim_space, text_eq_iff, ◌≡◌, refl, ◌≢◌, Bool, true, false, some,
  List, [], map, arith,
}
use golink_url_shortener.Db.Models.{Link}
use golink_url_shortener.Db.Order.{
  insert_row, order_rows, order_by_clause, stands_before, column, value_ltb, text_ltb,
}
use golink_url_shortener.Db.Repo.{sql_repo}
use golink_url_shortener.Db.UseTotals.{fault_free}
use golink_url_shortener.Db.Sql.{Tables}
use golink_url_shortener.Links.Validate.{
  validate_name, valid_name, is_name_char, is_reserved, validate_target,
}
use golink_url_shortener.Server.Import.{do_import, no_result, entry_target_valid}
use golink_url_shortener.Server.Restored.{IsPortable}
use golink_url_shortener.Server.RoundTrip
use golink_url_shortener.Server.RoundTrip.{Restored}
use golink_url_shortener.Db.ByName.{IsOrdered}
use golink_url_shortener.Server.Export
use golink_url_shortener.Server.Export.{entry_of, all_rows, exported, export_link, handle_export}
use golink_url_shortener.Tests.Fixtures.{docs, short, tables, cfg, alice}

handle_export-all_example :
    (rows : List Link) × (handle_export sql_repo 3 (fault_free tables)
      ≡ (map (entry_of tables) rows, fault_free tables))
    × IsOrdered rows
    × ((p : Link → Bool) → count p rows ≡ count p tables.links)
handle_export-all_example = Export.handle_export-all 3 tables (omega arith)

docs-IsPortable : IsPortable docs
unfolding validate_name valid_name is_name_char is_reserved entry_target_valid export_link
    validate_target has_prefix strip_prefix is_empty is_lower is_upper is_digit to_lower lower
    trim_space trim_left trim_right is_space text_eq
docs-IsPortable = record {
  valid_name = refl;
  valid_target = refl;
  owned = refl;
  lower_name = refl;
  trimmed_name = refl;
  trimmed_target = refl;
  trimmed_alias = refl;
}

short-IsPortable : IsPortable short
unfolding validate_name valid_name is_name_char is_reserved entry_target_valid export_link is_empty
    is_lower is_upper is_digit to_lower lower trim_space trim_left trim_right is_space text_eq
short-IsPortable = record {
  valid_name = refl;
  valid_target = refl;
  owned = refl;
  lower_name = refl;
  trimmed_name = refl;
  trimmed_target = refl;
  trimmed_alias = refl;
}

names_differ : docs.name_lower ≢ short.name_lower
unfolding text_eq
names_differ e =
    let k : ◌≡◌ {A = Bool} false true = (text_eq_iff docs.name_lower short.name_lower).1 e in
    absurd (ground arith)

-- A new database.
abbrev empty : Tables
empty = record tables { links = []; shares = []; next_link_id = 1 }

do_import-handle_export_example : Restored tables (
    do_import sql_repo cfg
      (some alice)
      (handle_export sql_repo 3 (fault_free tables)).0
      (no_result sql_repo cfg, fault_free empty))
unfolding insert_row order_rows order_by_clause stands_before column value_ltb text_ltb text_eq
do_import-handle_export_example =
    RoundTrip.do_import-handle_export cfg (some alice) 3 tables empty (omega arith)
      (short-IsPortable, (docs-IsPortable, tt)) ((names_differ, tt), (tt, tt)) refl refl
