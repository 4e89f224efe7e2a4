-- ===== src/Server/Export.antt =====
-- internal/server/export.go: the links that handleExport streams, page by page.
use golink_url_shortener.Base.{
  ltb, if◌then◌else◌, Bool-cases, length, keep, count, take, drop, length-append, Text, codes,
  text_eq, ℕ, zero, suc, ◌+◌, ◌<◌, ◌≡◌, refl, sym, ap, ◌∙◌, inl, inr, Bool, false, List, [], ◌∷◌,
  ◌++◌, map, arith,
}
use golink_url_shortener.Base.{
  Result, ok, err, take-drop, drop-drop, take-short, length-take, take-empty, map-append,
}
use golink_url_shortener.Db.Models.{
  LinkType, simple, advanced, alias, Link, sort_by_name, sort_asc, SortField, SortDir,
}
use golink_url_shortener.Db.Sql.{DbError, Tables, exec}
use golink_url_shortener.Db.LinkRepo
use golink_url_shortener.Db.Listing
use golink_url_shortener.Db.ByName.{by_name, IsOrdered, order_rows-IsOrdered}
use golink_url_shortener.Db.Order.{validate_sort, order_by_clause, insert_row, order_rows, page}
use golink_url_shortener.Db.Repo.{Repo, sql_repo}
use golink_url_shortener.Db.Selected.{length-order_rows}
use golink_url_shortener.Db.UseTotals.{fault_free}
use golink_url_shortener.Server.Import.{ExportLink}
use golink_url_shortener.Server.Json.{link_type_to_string}
use golink_url_shortener.Server.Authorised.{shares_of}

unfoldable pub export_link : Link → List Text → ExportLink
export_link l shares = record {
  name = l.name;
  target = l.target;
  owner_email = l.owner_email;
  link_type = link_type_to_string l.link_type;
  alias_target = l.alias_target;
  require_auth = l.require_auth;
  created_at = l.created_at;
  use_count = l.use_count;
  shares = shares;
}

-- After an error the link is exported without shares.
abbrev pub shares_or_none : Result DbError (List Text) → List Text
shares_or_none (ok es) = es
shares_or_none (err e) = []

module _ {S : Type 0} (repo : Repo S) where
  unfoldable pub export_page : List Link → S → List ExportLink × S
  export_page [] s = ([], s)
  export_page (l ∷ ls) s =
      let (shares, s') = repo.get_shares l.id s in
      let (els, s'') = export_page ls s' in (export_link l (shares_or_none shares) ∷ els, s'')

  -- What follows once a page is read: the end after an error, an empty page or a short one, or the
  -- pages from the next offset on.
  abbrev pub after_page :
      ℕ
      → (ℕ → S → List ExportLink × S)
      → ℕ
      → Result DbError (List Link × ℕ) × S
      → List ExportLink × S
  after_page size next offset (err e, s) = ([], s)
  after_page size next offset (ok ([], total), s) = ([], s)
  after_page size next offset (ok (l ∷ ls, total), s) =
      let (els, s') = export_page (l ∷ ls) s in
      let (rest, s'') = next (offset + length (l ∷ ls)) s' in
      if ltb (length (l ∷ ls)) size then (els, s') else (els ++ rest, s'')

  -- The loop; `fuel` bounds the number of pages.
  unfoldable pub export_loop : ℕ → ℕ → ℕ → S → List ExportLink × S
  export_loop zero size offset s = ([], s)
  export_loop (suc fuel) size offset s =
      after_page size (λ o s'. export_loop fuel size o s') offset
        (repo.list_links size offset sort_by_name sort_asc false s)

  -- The pages of 500 links each, where there are at most as many as the fuel.
  unfoldable pub handle_export : ℕ → S → List ExportLink × S
  handle_export fuel s = export_loop fuel 500 0 s

-- All links in the order of the export.
abbrev pub all_rows : Tables → List Link
all_rows t =
    order_rows (order_by_clause sort_by_name sort_asc)
      (keep (λ l. Listing.is_visible false l) t.links)

abbrev pub exported : Tables → Link → ExportLink
exported t l = export_link l (shares_of l.id t)

read_page :
    (size offset : ℕ) (t : Tables)
    → sql_repo.list_links size offset sort_by_name sort_asc false (fault_free t) ≡ (
      ok (page size offset (all_rows t), count (λ l. Listing.is_visible false l) t.links),
      fault_free t,
    )
unfolding Listing.list Listing.sorted_page Listing.select_page validate_sort exec text_eq
read_page size offset t = refl

export_page-all :
    (ls : List Link) (t : Tables)
    → export_page sql_repo ls (fault_free t) ≡ (map (exported t) ls, fault_free t)
unfolding export_page LinkRepo.get_shares exec
export_page-all [] t = refl
export_page-all (l ∷ ls) t = rw (export_page-all ls t) refl

-- From an offset on, with fuel for more pages than there are links left, the loop exports all of
-- those links in order.
export_loop-all :
    (fuel size offset : ℕ) (t : Tables)
    → 0 < size
    → length (drop offset (all_rows t)) < fuel
    → export_loop sql_repo fuel size offset (fault_free t)
      ≡ (map (exported t) (drop offset (all_rows t)), fault_free t)
unfolding export_loop page
export_loop-all zero size offset t some_size enough = absurd (omega arith)
export_loop-all (suc fuel) size offset t some_size enough =
    ap (after_page sql_repo size (λ o s. export_loop sql_repo fuel size o s) offset)
      (read_page size offset t)
    ∙ go (take size rest) refl
        (export_loop-all fuel size (offset + length (take size rest)) t some_size)
  where
    rest : List Link
    rest = drop offset (all_rows t)

    total : ℕ
    total = count (λ l. Listing.is_visible false l) t.links

    go :
        (ls : List Link)
        → take size rest ≡ ls
        → (length (drop (offset + length (take size rest)) (all_rows t)) < fuel
            → export_loop sql_repo fuel size (offset + length (take size rest)) (fault_free t) ≡ (
              map (exported t) (drop (offset + length (take size rest)) (all_rows t)),
              fault_free t,
            ))
        → after_page sql_repo size
            (λ o s. export_loop sql_repo fuel size o s)
            offset
            (ok (ls, total), fault_free t)
          ≡ (map (exported t) rest, fault_free t)
    go [] e next =
        ap (λ xs. (map (exported t) xs, fault_free t)) (sym (take-empty size rest some_size e))
    go (l ∷ ls) e next = elim (Bool-cases (ltb (length (l ∷ ls)) size)) [
      | inl short ↦
          rw (short, export_page-all (l ∷ ls) t)
            (ap (λ xs. (map (exported t) xs, fault_free t))
              (sym e ∙ take-short size rest (ground (arith, ap length e))))
      | inr whole ↦
          let full : length (take size rest) ≡ size =
            ground (arith, ap length e, length-take size rest) in
          let left : drop (offset + length (take size rest)) (all_rows t) ≡ drop size rest =
            drop-drop offset (length (take size rest)) (all_rows t) ∙ ap (λ n. drop n rest) full in
          let sizes : length (take size rest) + length (drop size rest) ≡ length rest =
            sym (length-append (take size rest) (drop size rest))
            ∙ ap length (take-drop size rest) in
          let fewer : length (drop (offset + length (take size rest)) (all_rows t)) < fuel =
            omega (arith, ap length left, sizes, full) in
          let ih : export_loop sql_repo fuel size (offset + length (l ∷ ls)) (fault_free t)
              ≡ (map (exported t) (drop size rest), fault_free t) =
            ap (λ xs. export_loop sql_repo fuel size (offset + length xs) (fault_free t)) (sym e)
            ∙ next fewer
            ∙ ap (λ xs. (map (exported t) xs, fault_free t)) left in
          rw (whole, export_page-all (l ∷ ls) t, ih)
            (ap (λ els. (els, fault_free t))
              (ap (λ q. map (exported t) q ++ map (exported t) (drop size rest)) (sym e)
                ∙ sym (map-append (exported t) (take size rest) (drop size rest))
                ∙ ap (map (exported t)) (take-drop size rest)))
    ]

count-insert_row :
    (p : Link → Bool) (clause : List (SortField × SortDir)) (l : Link) (ls : List Link)
    → count p (insert_row clause l ls) ≡ count p (l ∷ ls)
unfolding insert_row
count-insert_row p clause l [] = refl
count-insert_row p clause l (m ∷ ms) = ground (arith, count-insert_row p clause l ms)

count-order_rows :
    (p : Link → Bool) (clause : List (SortField × SortDir)) (ls : List Link)
    → count p (order_rows clause ls) ≡ count p ls
unfolding order_rows
count-order_rows p clause [] = refl
count-order_rows p clause (l ∷ ls) =
    count-insert_row p clause l (order_rows clause ls)
    ∙ ground (arith, count-order_rows p clause ls)

pub keep-visible : (ls : List Link) → keep (λ l. Listing.is_visible false l) ls ≡ ls
keep-visible [] = refl
keep-visible (l ∷ ls) = ap (◌∷◌ l) (keep-visible ls)

-- What an export is to say of a link.
abbrev pub entry_of : Tables → Link → ExportLink
entry_of t l = record {
  name = l.name;
  target = l.target;
  owner_email = l.owner_email;
  link_type = elim l.link_type [
    | simple ↦ codes "simple"
    | advanced ↦ codes "advanced"
    | alias ↦ codes "alias"
  ];
  alias_target = l.alias_target;
  require_auth = l.require_auth;
  created_at = l.created_at;
  use_count = l.use_count;
  shares = shares_of l.id t;
}

exported-entry_of : (t : Tables) (l : Link) → exported t l ≡ entry_of t l
unfolding export_link link_type_to_string
exported-entry_of t l = named l.link_type
  where
    named :
        (lt : LinkType)
        → ◌≡◌ {A = ExportLink}
            (record (entry_of t l) { link_type = link_type_to_string lt })
            (record (entry_of t l) {
              link_type = elim lt [
                | simple ↦ codes "simple"
                | advanced ↦ codes "advanced"
                | alias ↦ codes "alias"
              ];
            })
    named simple = refl
    named advanced = refl
    named alias = refl

map-entry_of : (t : Tables) (ls : List Link) → map (exported t) ls ≡ map (entry_of t) ls
map-entry_of t [] = refl
map-entry_of t (l ∷ ls) = rw (exported-entry_of t l, map-entry_of t ls) refl

-- The loop exports all rows of the table as they are exported one by one.
pub handle_export-rows :
    (fuel : ℕ) (t : Tables)
    → length (all_rows t) < fuel
    → handle_export sql_repo fuel (fault_free t) ≡ (map (exported t) (all_rows t), fault_free t)
unfolding handle_export
handle_export-rows fuel t enough = export_loop-all fuel 500 0 t (omega arith) enough

length-all_rows : (t : Tables) → length (all_rows t) ≡ length t.links
length-all_rows t =
    length-order_rows by_name (keep (λ l. Listing.is_visible false l) t.links)
    ∙ ap length (keep-visible t.links)

-- The export is complete: where no statement fails, and with fuel for one page more than there are
-- links, it holds an entry with the data and the shares of each link, in the order of the lower-case
-- names, for each link as often as it is in the table, and changes nothing.
pub handle_export-all :
    (fuel : ℕ) (t : Tables)
    → length t.links < fuel
    → (rows : List Link) × (handle_export sql_repo fuel (fault_free t)
        ≡ (map (entry_of t) rows, fault_free t))
      × IsOrdered rows
      × ((p : Link → Bool) → count p rows ≡ count p t.links)
handle_export-all fuel t enough = (
  all_rows t,
  handle_export-rows fuel t (omega (arith, length-all_rows t))
      ∙ ap (λ els. (els, fault_free t)) (map-entry_of t (all_rows t)),
  order_rows-IsOrdered (keep (λ l. Listing.is_visible false l) t.links),
  λ p. count-order_rows p by_name _ ∙ ap (count p) (keep-visible t.links),
)
