-- ===== src/Db/SetAlias.antt =====
-- What SetAlias of internal/db/link_repo.go promises.
use golink_url_shortener.Base.{
  ltb, ◌==◌, if◌then◌else◌, Bool-cases, Option-cases, find, count, Text, text_eq, to_lower, ℕ, ◌+◌,
  ◌≤◌, ◌≡◌, refl, sym, ap, ◌∙◌, inl, inr, Bool, false, Option, none, some, List, [], ◌∷◌, map,
  arith,
}
use golink_url_shortener.Base.{Result, ok, err}
use golink_url_shortener.Db.Models.{Link, alias}
use golink_url_shortener.Db.Sql.{Tables, Db, DbError, ◌>>◌}
use golink_url_shortener.Db.Rows.{has_id, has_alias_target, update_where, name_taken}
use golink_url_shortener.Db.Keeps.{transaction-rollback}
use golink_url_shortener.Db.Inversion.{exec-ok, bind-ok, transaction-ok, read-ok}
use golink_url_shortener.Db.LinkRepo
use mathlib.Core.Path.{subst}

-- SetAlias is atomic: when it fails, at whichever of its statements, no table has changed.
pub set_alias_atomic :
    (id : ℕ) (name target : Text) (auth : Bool) (max : ℕ) (db : Db) (e : DbError)
    → (LinkRepo.set_alias id name target auth max db).0 ≡ err e
    → (LinkRepo.set_alias id name target auth max db).1.tables ≡ db.tables
unfolding LinkRepo.set_alias
set_alias_atomic id name target auth max db e h =
    transaction-rollback (LinkRepo.set_alias_body id name target auth max) db h

-- The changes of the two statements, one after the other.
abbrev realiased : ℕ → Text → Text → Text → Bool → List Link → List Link
realiased id current name target auth ls =
    update_where (has_id id) (LinkRepo.aliased_link name target auth)
      (update_where (has_alias_target current) (LinkRepo.reparented target) ls)

-- What SetAlias is meant to make of each link: the link with the id becomes an alias of the target, and
-- the links that aliased it alias the target from now on.
abbrev pub moved_link : ℕ → Text → Text → Text → Bool → Link → Link
moved_link id current name target auth l =
    if l.id == id
    then record l {
      name = name;
      name_lower = to_lower name;
      target = [];
      link_type = alias;
      alias_target = target;
      require_auth = auth;
    }
    else if text_eq l.alias_target current
    then record l { alias_target = target }
    else l

realiased-moved :
    (id : ℕ) (current name target : Text) (auth : Bool) (ls : List Link)
    → realiased id current name target auth ls ≡ map (moved_link id current name target auth) ls
unfolding update_where LinkRepo.aliased_link
realiased-moved id current name target auth [] = refl
realiased-moved id current name target auth (l ∷ ls) =
    rw (realiased-moved id current name target auth ls) (elim (Bool-cases (l.id == id)) [
      | inl hit ↦ elim (Bool-cases (text_eq l.alias_target current)) [
        | inl own ↦ rw (own, hit) refl
        | inr other ↦ rw (other, hit) refl
      ]
      | inr miss ↦ elim (Bool-cases (text_eq l.alias_target current)) [
        | inl own ↦ rw (own, miss) refl
        | inr other ↦ rw (other, miss) refl
      ]
    ])

no_aliases :
    (current target : Text) (ls : List Link)
    → count (has_alias_target current) ls ≡ 0
    → update_where (has_alias_target current) (LinkRepo.reparented target) ls ≡ ls
unfolding update_where
no_aliases current target [] h = refl
no_aliases current target (l ∷ ls) h = elim (Bool-cases (text_eq l.alias_target current)) [
  | inl hit ↦ absurd (ground arith)
  | inr miss ↦ rw miss (ap (◌∷◌ l) (no_aliases current target ls (ground arith)))
]

rename_link-ok :
    (e : DbError) (id : ℕ) (name : Text) (f : Link → Link) (t : Tables) {l : Link}
    → (LinkRepo.rename_link e id name f t).0 ≡ ok l
    → (LinkRepo.rename_link e id name f t).1
      ≡ record t { links = update_where (has_id id) f t.links }
unfolding LinkRepo.rename_link
rename_link-ok e id name f t h = elim (Option-cases (find (has_id id) t.links)) [
  | inl absent ↦ absurd (ground arith)
  | inr (cur, found) ↦ elim (Bool-cases (name_taken id name t.links)) [
    | inl taken ↦ absurd (ground arith)
    | inr free ↦ rw (found, LinkRepo.rename_link, free) refl
  ]
]

ltb-le : (a b : ℕ) → ltb a b ≡ false → b ≤ a
ltb-le a b h = ground arith

ltb-zero : (n : ℕ) → ltb 0 n ≡ false → n ≡ 0
ltb-zero n h = ground arith

abbrev pub with_links : Tables → List Link → Tables
with_links t ls = record t { links = ls }

convert-links :
    (id : ℕ) (name target : Text) (auth : Bool) (db : Db) {l : Link}
    → (LinkRepo.convert id name target auth db).0 ≡ ok l
    → (LinkRepo.convert id name target auth db).1.tables
      ≡ with_links db.tables
          (update_where (has_id id) (LinkRepo.aliased_link name target auth) db.tables.links)
unfolding LinkRepo.convert
convert-links id name target auth db h =
    let (done, tables) = exec-ok (LinkRepo.rename_link _ id (to_lower name) _) db h in
    tables ∙ rename_link-ok _ id (to_lower name) _ db.tables done

reparent-links :
    (current target : Text) (db : Db) {u : Unit {0}}
    → (LinkRepo.reparent current target db).0 ≡ ok u
    → (LinkRepo.reparent current target db).1.tables
      ≡ with_links db.tables
          (update_where (has_alias_target current) (LinkRepo.reparented target) db.tables.links)
unfolding LinkRepo.reparent LinkRepo.reparent_links
reparent-links current target db h = (exec-ok (LinkRepo.reparent_links current target) db h).1

name_or-ok :
    (e : DbError) (o : Option Link) {n : Text}
    → LinkRepo.name_or e o ≡ ok n
    → (l : Link) × (o ≡ some l) × (n ≡ l.name_lower)
name_or-ok e none h = cc
name_or-ok e (some l) h = (l, refl, ground arith)

count_at :
    (name : Text) (n : ℕ) (t u : Tables)
    → ◌≡◌ {A = Result DbError ℕ} (ok (count (has_alias_target name) t.links)) (ok n)
    → t ≡ u
    → n ≡ count (has_alias_target name) u.links
count_at name n t u h same = rw (← same) (ground arith)

module _ (id : ℕ) (name target : Text) (auth : Bool) (max : ℕ) where
  both :
      (current : Text) (db : Db) {l : Link}
      → ((LinkRepo.reparent current target >> LinkRepo.convert id name target auth) db).0 ≡ ok l
      → ((LinkRepo.reparent current target >> LinkRepo.convert id name target auth) db).1.tables
        ≡ with_links db.tables (realiased id current name target auth db.tables.links)
  both current db h =
      let (u, first, rest) =
        bind-ok (LinkRepo.reparent current target) (λ _. LinkRepo.convert id name target auth) db
          h in
      ap (λ (r : Result DbError Link × Db). r.1.tables) rest
      ∙ convert-links id name target auth (LinkRepo.reparent current target db).1
          (ap (λ (r : Result DbError Link × Db). r.0) (sym rest) ∙ h)
      ∙ ap
          (λ (t : Tables).
            with_links t
              (update_where (has_id id) (LinkRepo.aliased_link name target auth) t.links))
          (reparent-links current target db first)

  -- The limit and the changes, when the counts are those of the tables.
  reparent_and_convert-ok :
      (current : Text) (m n : ℕ) (db : Db) {l : Link}
      → n ≡ count (has_alias_target current) db.tables.links
      → (LinkRepo.reparent_and_convert current m n id name target auth max db).0 ≡ ok l
      → (m + n + 1 ≤ max)
        × ((LinkRepo.reparent_and_convert current m n id name target auth max db).1.tables
            ≡ with_links db.tables (realiased id current name target auth db.tables.links))
  unfolding LinkRepo.reparent_and_convert
  reparent_and_convert-ok current m n db e h = elim (Bool-cases (ltb max (m + n + 1))) [
    | inl over ↦ absurd (ground arith)
    | inr fits ↦ elim (Bool-cases (ltb 0 n)) [
      | inl some_own ↦
          rw (fits, some_own)
            (omega (arith, ltb-le max (m + n + 1) fits), both current db (rw (fits, some_own) at h))
      | inr no_own ↦
          rw (fits, no_own)
            (
              omega (arith, ltb-le max (m + n + 1) fits),
              convert-links id name target auth db (rw (fits, no_own) at h)
                  ∙ ap
                      (λ (ls : List Link).
                        with_links db.tables
                          (update_where (has_id id) (LinkRepo.aliased_link name target auth) ls))
                      (sym (no_aliases current target db.tables.links (sym e ∙ ltb-zero n no_own))),
            )
    ]
  ]

  set_alias_body-ok :
      (db : Db) {l : Link}
      → (LinkRepo.set_alias_body id name target auth max db).0 ≡ ok l
      → (cur : Link) × (find (has_id id) db.tables.links ≡ some cur)
        × (count (has_alias_target target) db.tables.links
              + count (has_alias_target cur.name_lower) db.tables.links
              + 1
            ≤ max)
        × ((LinkRepo.set_alias_body id name target auth max db).1.tables
            ≡ with_links db.tables (realiased id cur.name_lower name target auth db.tables.links))
  unfolding LinkRepo.set_alias_body LinkRepo.name_of LinkRepo.count_aliases
  set_alias_body-ok db h =
      let (current, db1, named, same1, rest1, h1) =
        read-ok (λ t. LinkRepo.name_or _ (find (has_id id) t.links)) _ db h in
      let (m, db2, m_is, same2, rest2, h2) =
        read-ok (λ t. ok (count (has_alias_target target) t.links)) _ db1 h1 in
      let (n, db3, n_is, same3, rest3, h3) =
        read-ok (λ t. ok (count (has_alias_target current) t.links)) _ db2 h2 in
      let same = same3 ∙ same2 ∙ same1 in
      let m_eq = count_at target m db1.tables db.tables m_is same1 in
      let n_eq = count_at current n db2.tables db.tables n_is (same2 ∙ same1) in
      let (fits, changed) =
        reparent_and_convert-ok current m n db3
          (n_eq ∙ ap (λ (t : Tables). count (has_alias_target current) t.links) (sym same)) h3 in
      let (cur, found, is) = name_or-ok _ (find (has_id id) db.tables.links) named in
      (
        cur,
        found,
        subst
            (λ c.
              count (has_alias_target target) db.tables.links
                + count (has_alias_target c) db.tables.links
                + 1
              ≤ max)
            is (rw (← m_eq, ← n_eq) fits),
        subst
            (λ c.
              (LinkRepo.set_alias_body id name target auth max db).1.tables
              ≡ with_links db.tables (realiased id c name target auth db.tables.links))
            is
            (ap (λ (r : Result DbError Link × Db). r.1.tables) (rest1 ∙ rest2 ∙ rest3)
              ∙ changed
              ∙ ap (λ (t : Tables). with_links t (realiased id current name target auth t.links))
                  same),
      )

  pub set_alias-changes :
      (db : Db) (l : Link)
      → (LinkRepo.set_alias id name target auth max db).0 ≡ ok l
      → (cur : Link) × (find (has_id id) db.tables.links ≡ some cur)
        × (count (has_alias_target target) db.tables.links
              + count (has_alias_target cur.name_lower) db.tables.links
              + 1
            ≤ max)
        × ((LinkRepo.set_alias id name target auth max db).1.tables
            ≡ with_links db.tables (realiased id cur.name_lower name target auth db.tables.links))
  unfolding LinkRepo.set_alias
  set_alias-changes db l h =
      let (db', same, done, final) = transaction-ok _ db h in
      let (cur, found, fits, changed) = set_alias_body-ok db' done in
      (
        cur,
        subst (λ (t : Tables). find (has_id id) t.links ≡ some cur) same found,
        subst
            (λ (t : Tables).
              count (has_alias_target target) t.links
                + count (has_alias_target cur.name_lower) t.links
                + 1
              ≤ max)
            same fits,
        final
            ∙ changed
            ∙ ap
                (λ (t : Tables).
                  with_links t (realiased id cur.name_lower name target auth t.links))
                same,
      )

  -- SetAlias does what it is meant to, when it succeeds: the link was there, the target has room
  -- for it and for its aliases, the link itself and its aliases alias the target afterwards, and
  -- nothing else has changed in any table.
  pub set_alias-effect :
      (db : Db) (l : Link)
      → (LinkRepo.set_alias id name target auth max db).0 ≡ ok l
      → (cur : Link) × (find (has_id id) db.tables.links ≡ some cur)
        × (count (has_alias_target target) db.tables.links
              + count (has_alias_target cur.name_lower) db.tables.links
              + 1
            ≤ max)
        × ((LinkRepo.set_alias id name target auth max db).1.tables
            ≡ with_links db.tables
                (map (moved_link id cur.name_lower name target auth) db.tables.links))
  set_alias-effect db l h =
      let (cur, found, fits, changed) = set_alias-changes db l h in
      (
        cur,
        found,
        fits,
        changed
            ∙ ap (with_links db.tables)
                (realiased-moved id cur.name_lower name target auth db.tables.links),
      )
