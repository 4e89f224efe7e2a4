-- ===== src/Server/Reassigned.antt =====
-- What the form of internal/server/reassign_ui.go does to the owners of links.
use golink_url_shortener.Base.{
  if◌then◌else◌, Bool-cases, count, Text, codes, text_eq, is_empty, to_lower, equal_fold,
  trim_space, text_eq-eq, text_eq_refl, equal_fold_iff, ℕ, ◌+◌, ◌≡◌, refl, sym, ap, ◌∙◌, inl, inr,
  Bool, true, false, ◌||◌, Option, none, some, List, [], ◌∷◌, arith,
}
use golink_url_shortener.Base.{Result, ok, err}
use golink_url_shortener.Config.{Config}
use golink_url_shortener.Db.Models.{Link}
use golink_url_shortener.Db.Sql.{Db, DbError, Tables}
use golink_url_shortener.Db.Rows.{has_owner, update_where}
use golink_url_shortener.Db.LinkRepo
use golink_url_shortener.Db.LinkRepo.{owned_by}
use golink_url_shortener.Db.Inversion.{exec-ok}
use golink_url_shortener.Db.Repo.{sql_repo}
use golink_url_shortener.Server.Handler.{Identity, message, Response}
use golink_url_shortener.Server.Pages.{BaseData, new_base_data}
use golink_url_shortener.Server.Ui.{Csrf, validate_csrf}
use golink_url_shortener.Server.AdminPages.{
  ReassignPageData, reassign_page, reassigned, reassign_form, handle_reassign_links,
}

-- An update of the owner moves every link of one owner to another.
moved-count :
    (from to : Text) (ls : List Link)
    → text_eq to from ≡ false
    → (count (has_owner from) (update_where (has_owner from) (owned_by to) ls) ≡ 0)
      × (count (has_owner to) (update_where (has_owner from) (owned_by to) ls)
          ≡ count (has_owner to) ls + count (has_owner from) ls)
unfolding update_where
moved-count from to [] h = (refl, omega arith)
moved-count from to (l ∷ ls) h =
    let (none_left, all_moved) = moved-count from to ls h in
    elim (Bool-cases (has_owner from l)) [
      | inl theirs ↦
          let other : text_eq l.owner_email to ≡ false =
            ap (λ s. text_eq s to) (text_eq-eq l.owner_email from theirs) ∙ different in
          (ground (arith, none_left), ground (arith, text_eq_refl to, all_moved))
      | inr others ↦ (ground (arith, none_left), ground (arith, all_moved))
    ]
  where
    different : text_eq from to ≡ false
    different = elim (Bool-cases (text_eq from to)) [
      | inr other ↦ other
      | inl same ↦ absurd (
          ground
            (arith, ap (λ s. text_eq s from) (sym (text_eq-eq from to same)), text_eq_refl from))
    ]

-- What a form that has reassigned links has done to the tables.
abbrev pub Moves : Text → Text → Tables → Tables → ReassignPageData → Type 0
Moves from to before after page =
    (page.reassigned ≡ count (has_owner from) before.links)
    × (count (has_owner from) after.links ≡ 0)
    × (count (has_owner to) after.links ≡ count (has_owner to) before.links + page.reassigned)

ok_inj : {A : Type 0} {a b : A} → ◌≡◌ {A = Result Response A} (ok a) (ok b) → a ≡ b
ok_inj e = cc

ok_eq : {A : Type 0} {a b : A} → ◌≡◌ {A = Result DbError A} (ok a) (ok b) → a ≡ b
ok_eq e = cc

module _ (cfg : Config) (version : Text) where
  abbrev Outcome : Text → Text → Tables → Result Response ReassignPageData × Db → Type 0
  Outcome from to before res =
      (page : ReassignPageData)
      → res.0 ≡ ok page
      → page.done ≡ true
      → Moves from to before res.1.tables page

  reassigned-Moves :
      (base : BaseData) (from to : Text) (db : Db) (r : Result DbError ℕ × Db)
      → text_eq to from ≡ false
      → LinkRepo.reassign_links from to db ≡ r
      → Outcome from to db.tables (reassigned cfg version sql_repo base from to r)
  unfolding reassign_page LinkRepo.reassign_links
  reassigned-Moves base from to db (err e, db') other eq =
      λ page h done. absurd (ground (arith, ap (λ (p : ReassignPageData). p.done) (ok_inj h)))
  reassigned-Moves base from to db (ok n, db') other eq = λ page h done.
      let value = ap (λ (q : Result DbError ℕ × Db). q.0) eq in
      let (counted, moved) = exec-ok _ db value in
      let (none_left, all_moved) = moved-count from to db.tables.links other in
      let links =
        ap (λ (t : Tables). t.links)
          (ap (λ (q : Result DbError ℕ × Db). q.1.tables) (sym eq) ∙ moved) in
      let same : page.reassigned ≡ count (has_owner from) db.tables.links =
        ap (λ (p : ReassignPageData). p.reassigned) (sym (ok_inj h)) ∙ sym (ok_eq counted) in
      (
        same,
        ap (count (has_owner from)) links ∙ none_left,
        ap (count (has_owner to)) links
            ∙ all_moved
            ∙ ap (λ n. count (has_owner to) db.tables.links + n) (sym same),
      )

  reassign_form-Moves :
      (base : BaseData) (from to : Text) (db : Db)
      → Outcome from to db.tables (reassign_form cfg version sql_repo base from to db)
  unfolding reassign_form reassign_page
  reassign_form-Moves base from to db = go (is_empty from || is_empty to) (equal_fold from to) refl
    where
      go :
          (missing same : Bool)
          → equal_fold from to ≡ same
          → Outcome from to db.tables (
              if missing
              then (
                ok (
                    reassign_page cfg version base from to false 0 (
                      some (message (codes "Both 'from' and 'to' email addresses are required.")))),
                db,
              )
              else if same
              then (
                ok (
                    reassign_page cfg version base from to false 0
                      (some (message (codes "'From' and 'To' addresses must be different.")))),
                db,
              )
              else reassigned cfg version sql_repo base from to
                  (LinkRepo.reassign_links from to db))
      go true same e =
          λ page h done. absurd (ground (arith, ap (λ (p : ReassignPageData). p.done) (ok_inj h)))
      go false true e =
          λ page h done. absurd (ground (arith, ap (λ (p : ReassignPageData). p.done) (ok_inj h)))
      go false false e =
          reassigned-Moves base from to db (LinkRepo.reassign_links from to db) different refl
        where
          different : text_eq to from ≡ false
          different = elim (Bool-cases (text_eq to from)) [
            | inr other ↦ other
            | inl same ↦
                let k = (equal_fold_iff from to).1 (ap to_lower (sym (text_eq-eq to from same))) in
                absurd (ground arith)
          ]

  -- The page that says that links were reassigned says the truth: the form had a valid token, no link
  -- is owned by the first address any more, the second owns as many more as the page says, and these
  -- are as many as the first owned.
  pub handle_reassign_links-Moves :
      (token : Option Text) (user : Option Identity) (csrf : Csrf) (from to : Text) (db : Db)
      (page : ReassignPageData)
      → (handle_reassign_links cfg version sql_repo token user csrf from to db).0 ≡ ok page
      → page.done ≡ true
      → (validate_csrf csrf ≡ true)
        × Moves
            (trim_space from)
            (trim_space to)
            db.tables
            (handle_reassign_links cfg version sql_repo token user csrf from to db).1.tables
            page
  unfolding handle_reassign_links new_base_data
  handle_reassign_links-Moves none user csrf from to db page = λ h done. absurd (ground arith)
  handle_reassign_links-Moves (some token) user csrf from to db page =
      elim (Bool-cases (validate_csrf csrf)) [
        | inr forged ↦ rw forged (λ h done. absurd (ground arith))
        | inl valid ↦ rw valid (λ h done.
            (refl, reassign_form-Moves _ (trim_space from) (trim_space to) db page h done))
      ]
