-- ===== src/Server/Shown.antt =====
-- What the list pages of internal/server/ui.go show.
use golink_url_shortener.Base.{
  All-imply, ◌==◌, ==_iff, Bool-cases, length, All, Text, is_empty, ℕ, ◌+◌, ◌-◌, ◌*◌, ◌≤◌, ◌<◌, ◌≡◌,
  refl, ap, ◌∙◌, inl, inr, Bool, true, false, ◌&&◌, Option, none, some, List, [], arith,
}
use mathlib.Core.Path.{subst}
use golink_url_shortener.Base.{Result, ok, err}
use golink_url_shortener.Config.{Config}
use golink_url_shortener.Db.Models.{Link}
use golink_url_shortener.Db.Sql.{Db, DbError, Tables}
use golink_url_shortener.Db.Listing
use golink_url_shortener.Db.Search.{matches_search, parse_search_query}
use golink_url_shortener.Db.Repo.{sql_repo}
use golink_url_shortener.Db.Selected.{Selects, sorted_page-Selects}
use golink_url_shortener.Server.Handler.{
  Identity, Response, Handler, then_result, ◌>>=◌, call, called, internal_error,
}
use golink_url_shortener.Server.Paging.{page_param, page_range}
use golink_url_shortener.Server.Pages.{BaseData, new_base_data, base_or_reply}
use golink_url_shortener.Server.ListPages.{
  LinksPageData, ListQuery, is_anonymous, identifiers, links_page, offset_of, list_or_search,
  owned_ids, shared_or_none, marked_page, handle_links, own_or_search, my_links, handle_my_links,
}

module _ {S A B : Type 0} where
  then_result-ok :
      (f : A → Handler S B) (r : Result Response A × S) {b : B}
      → (then_result f r).0 ≡ ok b
      → (a : A) × (s : S) × (r ≡ (ok a, s)) × ((f a s).0 ≡ ok b)
  then_result-ok f (ok a, s) h = (a, s, refl, h)
  then_result-ok f (err e, s) h = cc

  -- A handler that ends with a value has gone through its first step.
  pub handler-ok :
      (m : Handler S A) (f : A → Handler S B) (s : S) {b : B}
      → (◌>>=◌ m f s).0 ≡ ok b
      → (a : A) × (s' : S) × (m s ≡ (ok a, s')) × ((f a s').0 ≡ ok b)
  handler-ok m f s h = then_result-ok f (m s) h

called-ok :
    {S A : Type 0} (f : DbError → Response) (r : Result DbError A × S) {a : A} {s : S}
    → called f r ≡ (ok a, s)
    → r.0 ≡ ok a
called-ok f (ok b, s') h = ground arith
called-ok f (err e, s') h = absurd (ground arith)

pub ok_inj : {A : Type 0} {a b : A} → ◌≡◌ {A = Result Response A} (ok a) (ok b) → a ≡ b
ok_inj e = cc

module _ (cfg : Config) (version : Text) where
  base_or_reply-tables :
      (token : Option Text) (id : Option Identity) (db db' : Db) (base : BaseData)
      → base_or_reply cfg version token id db ≡ (ok base, db')
      → db ≡ db'
  unfolding new_base_data
  base_or_reply-tables none id db db' base h = absurd (ground arith)
  base_or_reply-tables (some token) id db db' base h =
      ap (λ (r : Result Response BaseData × Db). r.1) h

  -- What a list selects, by a test that passes only visible links.
  list_or_search-Selects :
      (p : ListQuery) (public_only : Bool) (db : Db) (rows : List Link × ℕ)
      → (list_or_search cfg version sql_repo p public_only db).0 ≡ ok rows
      → (test : Link → Bool) × ((l : Link)
          → test l ≡ true
          → Listing.is_visible public_only l ≡ true)
        × Selects test db.tables cfg.links_per_page (offset_of cfg version sql_repo p) rows.0 rows.1
  unfolding list_or_search Listing.list Listing.search
  list_or_search-Selects p public_only db rows h = elim (Bool-cases (is_empty p.q)) [
    | inl empty ↦ (
      (λ l. Listing.is_visible public_only l),
      (λ l k. k),
      sorted_page-Selects _ _ _ _ _ db rows.0 rows.1 (rw (empty, list_or_search) at h),
    )
    | inr given ↦ (
      (λ l.
          matches_search (parse_search_query p.q).0 (parse_search_query p.q).1 l
          && Listing.is_visible public_only l),
      (λ l k. ground arith),
      sorted_page-Selects _ _ _ _ _ db rows.0 rows.1 (rw (given, list_or_search) at h),
    )
  ]

  -- The numbers of a page that is not empty: its links are those from `page_start` to `page_end`.
  pub record Paged (page : LinksPageData) : Type 0 where
    pub fits : length page.links ≤ cfg.links_per_page
    pub first : 0 < length page.links → 1 ≤ page.page_start
    pub last : 0 < length page.links → page.page_end ≤ page.total
    pub span : 0 < length page.links → page.page_end + 1 ≡ page.page_start + length page.links

  range_lem :
      (n size len total : ℕ)
      → (0 < len → (n - 1) * size + len ≤ total)
      → 0 < len
      → (1 ≤ (page_range n size len total).0)
        × ((page_range n size len total).1 ≤ total)
        × ((page_range n size len total).1 + 1 ≡ (page_range n size len total).0 + len)
  unfolding page_range
  range_lem n size len total h some_len =
      let bound = h some_len in
      let some_total : (total == 0) ≡ false = ground (arith, ==_iff total 0) in
      rw some_total (omega arith, omega arith, omega arith)

  links_page-Paged :
      (base : BaseData) (p : ListQuery) (owned shared : List ℕ) (test : Link → Bool) (t : Tables)
      (rows : List Link × ℕ)
      → Selects test t cfg.links_per_page (offset_of cfg version sql_repo p) rows.0 rows.1
      → Paged (links_page cfg version sql_repo base p owned shared rows)
  unfolding links_page
  links_page-Paged base p owned shared test t rows s =
      let range =
        range_lem (page_param p.page) cfg.links_per_page (length rows.0) rows.1 s.within in
      record {
        fits = s.fits;
        first = λ h. (range h).0;
        last = λ h. (range h).1;
        span = λ h. (range h).2;
      }

  -- What a list page comes from.
  pub handle_links-Selects :
      (token : Option Text) (id : Option Identity) (p : ListQuery) (db : Db) (page : LinksPageData)
      → (handle_links cfg version sql_repo token id p db).0 ≡ ok page
      → (rows : List Link × ℕ) × (test : Link → Bool) × (base : BaseData) × (owned : List ℕ)
        × (shared : List ℕ) × ((l : Link)
            → test l ≡ true
            → Listing.is_visible (is_anonymous id) l ≡ true)
        × Selects test db.tables cfg.links_per_page (offset_of cfg version sql_repo p) rows.0 rows.1
        × (links_page cfg version sql_repo base p owned shared rows ≡ page)
  unfolding handle_links marked_page
  handle_links-Selects token id p db page h =
      let (base, db', based, rest) = handler-ok (base_or_reply cfg version token id) _ db h in
      let (rows, db'', listed, rest') =
        handler-ok
          (call (list_or_search cfg version sql_repo p (is_anonymous id)) (λ e. internal_error)) _
          db' rest in
      let same = base_or_reply-tables token id db db' base based in
      let (test, visible, s) = list_or_search-Selects p (is_anonymous id) db rows (
        ap (λ d. (list_or_search cfg version sql_repo p (is_anonymous id) d).0) same
        ∙ called-ok (λ e. internal_error) _ listed) in
      (
        rows,
        test,
        base,
        owned_ids cfg version sql_repo id rows.0,
        (shared_or_none cfg version sql_repo id db'').0,
        visible,
        s,
        ok_inj rest',
      )

  -- Every page of links numbers its links rightly: there are at most as many as a page holds, and on
  -- a page that is not empty they stand from its first number to its last, within the count of all.
  pub handle_links-Paged :
      (token : Option Text) (id : Option Identity) (p : ListQuery) (db : Db) (page : LinksPageData)
      → (handle_links cfg version sql_repo token id p db).0 ≡ ok page
      → Paged page
  handle_links-Paged token id p db page h =
      let (rows, test, base, owned, shared, visible, s, e) =
        handle_links-Selects token id p db page h in
      subst Paged e (links_page-Paged base p owned shared test db.tables rows s)

  -- The user owns the link, or it is shared with their address or with one of their groups.
  abbrev pub IsTheirs : Tables → Identity → Link → Type 0
  IsTheirs t id l = Listing.is_owned_or_shared id.email (identifiers id) t l ≡ true

  own_or_search-Selects :
      (p : ListQuery) (id : Identity) (db : Db) (rows : List Link × ℕ)
      → (own_or_search cfg version sql_repo p id db).0 ≡ ok rows
      → (test : Link → Bool) × ((l : Link) → test l ≡ true → IsTheirs db.tables id l)
        × Selects test db.tables cfg.links_per_page (offset_of cfg version sql_repo p) rows.0 rows.1
  unfolding own_or_search Listing.list_owned_or_shared_with Listing.search_owned_or_shared_with
  own_or_search-Selects p id db rows h = elim (Bool-cases (is_empty p.q)) [
    | inl empty ↦ (
      Listing.is_owned_or_shared id.email (identifiers id) db.tables,
      (λ l k. k),
      sorted_page-Selects _ _ _ _ _ db rows.0 rows.1 (rw (empty, own_or_search) at h),
    )
    | inr given ↦ (
      (λ l.
          Listing.is_owned_or_shared id.email (identifiers id) db.tables l
          && matches_search (parse_search_query p.q).0 (parse_search_query p.q).1 l),
      (λ l k. ground arith),
      sorted_page-Selects _ _ _ _ _ db rows.0 rows.1 (rw (given, own_or_search) at h),
    )
  ]

  -- The own links of a user, searched or not: each is owned by the user or shared with them, and the
  -- page numbers its links rightly. Without an identity there is no such page.
  pub handle_my_links-IsTheirs :
      (token : Option Text) (user : Option Identity) (p : ListQuery) (db : Db)
      (page : LinksPageData)
      → (handle_my_links cfg version sql_repo token user p db).0 ≡ ok page
      → (id : Identity) × (user ≡ some id) × All (IsTheirs db.tables id) page.links × Paged page
  unfolding handle_my_links my_links links_page
  handle_my_links-IsTheirs token none p db page h =
      let (base, db', based, rest) = handler-ok (base_or_reply cfg version token none) _ db h in cc
  handle_my_links-IsTheirs token (some id) p db page h =
      let (base, db', based, rest) =
        handler-ok (base_or_reply cfg version token (some id)) _ db h in
      let (rows, db'', listed, rest') =
        handler-ok (call (own_or_search cfg version sql_repo p id) (λ e. internal_error)) _ db'
          rest in
      let same = base_or_reply-tables token (some id) db db' base based in
      let (test, theirs, s) = own_or_search-Selects p id db rows (
        ap (λ d. (own_or_search cfg version sql_repo p id d).0) same
        ∙ called-ok (λ e. internal_error) _ listed) in
      let e = ok_inj rest' in
      (
        id,
        refl,
        subst (λ (q : LinksPageData). All (IsTheirs db.tables id) q.links) e
            (All-imply (λ l. test l ≡ true) (IsTheirs db.tables id) theirs rows.0 s.selected),
        subst Paged e (links_page-Paged base p [] _ test db.tables rows s),
      )
