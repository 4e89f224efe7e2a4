-- ===== src/Server/Resolved.antt =====
-- What resolveAliasTarget of internal/server/api.go finds.
use golink_url_shortener.Base.{
  if◌then◌else◌, Bool-cases, find, Text, text_eq, is_empty, ◌≡◌, sym, ap, ◌∙◌, ◌⊎◌, inl, inr, Bool,
  true, false, not, ◌&&◌, Option, none, some, List, [], arith,
}
use golink_url_shortener.Base.{Result, ok}
use mathlib.Core.Path.{subst}
use golink_url_shortener.Db.Models.{Link, is_alias}
use golink_url_shortener.Db.Inversion.{exec-ok}
use golink_url_shortener.Db.LinkRepo
use golink_url_shortener.Db.Repo.{sql_repo}
use golink_url_shortener.Db.Rows.{has_name}
use golink_url_shortener.Db.Sql.{Tables, Db, DbError, not_found}
use golink_url_shortener.Server.Steps.{bind-ok, return-ok, fail_if-ok, wrap-ok}
use golink_url_shortener.Server.Handler.{
  Problem, self_alias, circular_alias, no_alias_target, no_canonical,
}
use golink_url_shortener.Server.Actions.{
  alias_lookup_error, Action, ◌>>=◌, ◌>>◌, return, fail_if, wrap, follow_alias,
  resolve_alias_target,
}

-- The alias target that is stored for a name: the name, if its link is no alias, and else the
-- alias target of its link, if there is a link of that name.
abbrev pub IsResolved : List Link → Text → Text → Type 0
IsResolved ls name resolved =
    (link : Link) × (find (has_name name) ls ≡ some link)
    × (((is_alias link ≡ false) × (resolved ≡ name))
        ⊎ ((is_alias link ≡ true)
            × (resolved ≡ link.alias_target)
            × ((final : Link) × (find (has_name resolved) ls ≡ some final))))

get_by_name-ok :
    (name : Text) (db db' : Db) (link : Link)
    → LinkRepo.get_by_name name db ≡ (ok link, db')
    → (find (has_name name) db.tables.links ≡ some link) × (db'.tables ≡ db.tables)
unfolding LinkRepo.get_by_name
get_by_name-ok name db db' link h =
    let (value, tables) =
      exec-ok (λ t. (LinkRepo.found_or not_found (find (has_name name) t.links), t)) db
        (ap (λ (q : Result DbError Link × Db). q.0) h) in
    (
      go (find (has_name name) db.tables.links) value,
      ap (λ (q : Result DbError Link × Db). q.1.tables) (sym h) ∙ tables,
    )
  where
    go : (o : Option Link) → LinkRepo.found_or not_found o ≡ ok link → o ≡ some link
    go none bad = cc
    go (some l) same = ground arith

-- A lookup behind a guard, and what follows it.
guarded_lookup-ok :
    (b : Bool) (e missing : Problem) (name : Text) (f : Link → Action Db Problem Text) (db db' : Db)
    (resolved : Text)
    → (fail_if b e >> (wrap (alias_lookup_error missing) (LinkRepo.get_by_name name) >>= f)) db
      ≡ (ok resolved, db')
    → (link : Link) × (s : Db) × (find (has_name name) db.tables.links ≡ some link)
      × (s.tables ≡ db.tables)
      × (f link s ≡ (ok resolved, db'))
guarded_lookup-ok b e missing name f db db' resolved h =
    let (u, s0, e0, h0) =
      bind-ok (fail_if b e)
        (λ _. wrap (alias_lookup_error missing) (LinkRepo.get_by_name name) >>= f) db db' resolved
        h in
    let (ends, start) = fail_if-ok b e db s0 e0 in
    let (link, s1, e1, h1) =
      bind-ok (wrap (alias_lookup_error missing) (LinkRepo.get_by_name name)) f s0 db' resolved
        h0 in
    let (found, kept) =
      get_by_name-ok name s0 s1 link
        (wrap-ok (alias_lookup_error missing) (LinkRepo.get_by_name name) s0 link s1 e1) in
    (
      link,
      s1,
      ap (λ (d : Db). find (has_name name) d.tables.links) (sym start) ∙ found,
      kept ∙ ap (λ (d : Db). d.tables) start,
      h1,
    )

follow_alias-ok :
    (link : Link) (db db' : Db) (resolved : Text)
    → follow_alias sql_repo [] link db ≡ (ok resolved, db')
    → (resolved ≡ link.alias_target)
      × ((final : Link) × (find (has_name resolved) db.tables.links ≡ some final))
      × (db'.tables ≡ db.tables)
unfolding follow_alias
follow_alias-ok link db db' resolved h =
    let (final, s, found, kept, rest) =
      guarded_lookup-ok (text_eq link.alias_target [] && not (is_empty [])) circular_alias
        (no_canonical link.alias_target) link.alias_target (λ _. return link.alias_target) db db'
        resolved h in
    let (same, last) = return-ok link.alias_target resolved s db' rest in
    (
      sym same,
      (final, subst (λ (n : Text). find (has_name n) db.tables.links ≡ some final) same found),
      ap (λ (d : Db). d.tables) (sym last) ∙ kept,
    )

pub resolve_alias_target-ok :
    (name : Text) (db db' : Db) (resolved : Text)
    → resolve_alias_target sql_repo name [] db ≡ (ok resolved, db')
    → IsResolved db.tables.links name resolved × (db'.tables ≡ db.tables)
unfolding resolve_alias_target
resolve_alias_target-ok name db db' resolved h =
    let (link, s, found, kept, rest) =
      guarded_lookup-ok (text_eq name [] && not (is_empty [])) self_alias (no_alias_target name)
        name (λ l. if is_alias l then follow_alias sql_repo [] l else return name) db db' resolved
        h in
    elim (Bool-cases (is_alias link)) [
      | inl is ↦
          let (resolved_is, (final, there), last) =
            follow_alias-ok link s db' resolved (rw is at rest) in
          (
            (
              link,
              found,
              inr (
                is,
                resolved_is,
                (final, ap (λ (t : Tables). find (has_name resolved) t.links) (sym kept) ∙ there),
              ),
            ),
            last ∙ kept,
          )
      | inr plain ↦
          let (resolved_is, last) = return-ok name resolved s db' (rw plain at rest) in
          ((link, found, inl (plain, sym resolved_is)), ap (λ (d : Db). d.tables) (sym last) ∙ kept)
    ]
