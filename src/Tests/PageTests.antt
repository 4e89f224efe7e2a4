-- ===== src/Tests/PageTests.antt =====
-- The pages and their forms at concrete inputs.
use golink_url_shortener.Base.{
  All, Text, codes, text_eq, is_empty, is_upper, lower, to_lower, equal_fold, is_space, trim_left,
  trim_right, trim_space, ◌≡◌, refl, ◌⊎◌, true, Option, none, some, [], ◌∷◌,
}
use golink_url_shortener.Config.{Config, advanced_links_allowed}
use golink_url_shortener.Server.AdminForms
use golink_url_shortener.Server.AdminPages.{
  no_file, ReassignPageData, handle_create_api_key, handle_delete_api_key, handle_reassign_links,
  handle_import_upload, reassign_form, reassign_page,
}
use golink_url_shortener.Server.Reassigned
use golink_url_shortener.Server.Reassigned.{Moves}
use golink_url_shortener.Server.Saved
use golink_url_shortener.Server.Authorised.{MayEdit}
use golink_url_shortener.Server.Ui.{Csrf, DetailsForm, validate_csrf}
use golink_url_shortener.Server.NewLink
use golink_url_shortener.Db.Sql.{exec}
use golink_url_shortener.Db.Listing
use golink_url_shortener.Db.LinkRepo
use golink_url_shortener.Db.Repo.{sql_repo}
use golink_url_shortener.Db.Order.{
  validate_sort, order_by_clause, text_ltb, value_ltb, column, stands_before, insert_row,
  order_rows, page,
}
use golink_url_shortener.Server.Paging.{total_pages, page_param, page_range}
use golink_url_shortener.Server.Handler.{Identity}
use golink_url_shortener.Server.Pages.{new_base_data}
use golink_url_shortener.Server.ListPages.{
  LinksPageData, ListQuery, handle_my_links, my_links, own_or_search, links_page, sort_column,
  sort_direction, parse_sort_params,
}
use golink_url_shortener.Server.Shown
use golink_url_shortener.Server.Shown.{Paged, IsTheirs}
use golink_url_shortener.Tests.Fixtures.{docs, short, db, alice, bob, cfg, url}

abbrev token : Option Text
token = some (codes "t")

abbrev first : ListQuery
first = record { q = []; page = some 1; sort = codes "name"; dir = [] }

abbrev ten : Config
ten = record cfg { links_per_page = 10 }

-- The links of bob: his alias, and the link that alice shares with him.
abbrev of_bob : LinksPageData
of_bob = record {
  base = record {
    title = [];
    identity = some bob;
    csrf_token = codes "t";
    favicon_path = [];
    oidc_enabled = true;
    version = codes "1";
    allow_advanced_links = true;
    default_domain = codes "example.com";
  };
  links = short ∷ docs ∷ [];
  query = [];
  page = 1;
  total_pages = 1;
  total = 2;
  page_start = 1;
  page_end = 2;
  sort = codes "name";
  dir = codes "asc";
  owned_ids = [];
  shared_ids = 1 ∷ [];
}

handle_my_links-IsTheirs_example :
    (id : Identity) × (some bob ≡ some id)
    × All (IsTheirs ten (codes "1") db.tables id) of_bob.links
    × Paged ten (codes "1") of_bob
unfolding advanced_links_allowed handle_my_links my_links new_base_data own_or_search links_page
    Listing.list_owned_or_shared_with Listing.sorted_page Listing.select_page
    Listing.is_owned_or_shared Listing.is_shared_with validate_sort order_by_clause text_ltb
    value_ltb column stands_before insert_row order_rows page exec total_pages page_param page_range
    sort_column sort_direction parse_sort_params is_empty to_lower lower is_upper text_eq equal_fold
handle_my_links-IsTheirs_example =
    Shown.handle_my_links-IsTheirs ten (codes "1") token (some bob) first db of_bob refl

abbrev csrf : Csrf
csrf = record { cookie = some (codes "t"); form_token = codes "t" }

abbrev form : DetailsForm
form = record {
  link_type = codes "simple";
  target = codes "https://new.example.com";
  alias_target = [];
  require_auth = [];
}

handle_details_form-MayEdit_example :
    ((NewLink.handle_details_form cfg
        (codes "1")
        sql_repo
        url
        token
        (codes "docs")
        (some bob)
        csrf
        form
        db).1.tables
      ≡ db.tables)
    ⊎ ((validate_csrf csrf ≡ true) × MayEdit db.tables (to_lower (codes "docs")) (some bob))
handle_details_form-MayEdit_example =
    Saved.handle_details_form-MayEdit cfg (codes "1") url token (codes "docs") (some bob) csrf form
      db

abbrev forged : Csrf
forged = record { cookie = none; form_token = codes "t" }

admin_forms-valid_example :
    ((handle_create_api_key cfg
          (codes "1")
          (λ s. s)
          (some (codes "k"))
          token
          (some alice)
          forged
          (codes "n")
          []
          db).1
        ≡ db
      ⊎ validate_csrf forged ≡ true)
    × ((handle_delete_api_key cfg (codes "1") forged (some 1) db).1 ≡ db
        ⊎ validate_csrf forged ≡ true)
    × ((handle_reassign_links cfg
            (codes "1")
            sql_repo
            token
            (some alice)
            forged
            (codes "a")
            (codes "b")
            db).1
          ≡ db
        ⊎ validate_csrf forged ≡ true)
    × ((handle_import_upload cfg (codes "1") sql_repo token (some alice) forged no_file db).1 ≡ db
        ⊎ validate_csrf forged ≡ true)
admin_forms-valid_example =
    AdminForms.admin_forms-valid cfg (codes "1") sql_repo (λ s. s) (some (codes "k")) token
      (some alice) forged (codes "n") [] (some 1) (codes "a") (codes "b") no_file db db

abbrev moved : ReassignPageData
moved = record {
  base = of_bob.base;
  from_email = codes "alice@example.com";
  to_email = codes "b@c";
  done = true;
  reassigned = 1;
  error = none;
}

handle_reassign_links-Moves_example :
    (validate_csrf csrf ≡ true)
    × Moves
        (trim_space (codes "alice@example.com "))
        (trim_space (codes "b@c"))
        db.tables
        (handle_reassign_links cfg
          (codes "1")
          sql_repo
          token
          (some bob)
          csrf
          (codes "alice@example.com ")
          (codes "b@c")
          db).1.tables
        moved
unfolding advanced_links_allowed handle_reassign_links new_base_data reassign_form reassign_page
    validate_csrf LinkRepo.reassign_links exec trim_space trim_left trim_right is_space is_empty
    equal_fold to_lower lower is_upper text_eq
handle_reassign_links-Moves_example =
    Reassigned.handle_reassign_links-Moves cfg (codes "1") token (some bob) csrf
      (codes "alice@example.com ") (codes "b@c") db moved refl refl
