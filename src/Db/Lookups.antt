-- ===== src/Db/Lookups.antt =====
-- How each change of the tables shows in the lookup of a link by its name.
use golink_url_shortener.Base.{
  ◌==◌, ==_iff, Bool-cases, Option-cases, any, find, All, Text, to_lower, text_eq_iff, ℕ, ◌≡◌, refl,
  ◌≢◌, inl, inr, Bool, true, false, some, List, [], ◌∷◌, arith,
}
use golink_url_shortener.Base.{err}
use golink_url_shortener.Db.Models.{Link, LinkType}
use golink_url_shortener.Db.Sql.{Tables, Db, DbError, Statement, exec}
use golink_url_shortener.Db.Rows.{has_id, has_name, update_where, name_taken}
use golink_url_shortener.Db.LinkRepo
use golink_url_shortener.Db.Distinct.{Distinct}

-- A statement that fails leaves the tables alone.
abbrev pub IsAtomic : {A : Type 0} → Statement A → Type 0
IsAtomic stmt = (t : Tables) (e : DbError) → (stmt t).0 ≡ err e → (stmt t).1 ≡ t

pub exec-err :
    {A : Type 0} (stmt : Statement A) (db : Db) (e : DbError)
    → IsAtomic stmt
    → (exec stmt db).0 ≡ err e
    → (exec stmt db).1.tables ≡ db.tables
unfolding exec
exec-err stmt db e atomic h = go db.faults h
  where
    go :
        (fs : List Bool)
        → (exec stmt (record db { faults = fs })).0 ≡ err e
        → (exec stmt (record db { faults = fs })).1.tables ≡ db.tables
    go [] k = atomic db.tables e k
    go (true ∷ fs) k = refl
    go (false ∷ fs) k = atomic db.tables e k

pub insert_link-IsAtomic :
    (name target owner : Text) (link_type : LinkType) (alias_target : Text) (auth : Bool)
    → IsAtomic (LinkRepo.insert_link name target owner link_type alias_target auth)
unfolding LinkRepo.insert_link
insert_link-IsAtomic name target owner link_type alias_target auth t e h =
    elim (Bool-cases (any (has_name (to_lower name)) t.links)) [
      | inl taken ↦ rw taken refl
      | inr free ↦ absurd (ground arith)
    ]

pub rename_link-IsAtomic :
    (e : DbError) (id : ℕ) (name : Text) (f : Link → Link)
    → IsAtomic (LinkRepo.rename_link e id name f)
unfolding LinkRepo.rename_link
rename_link-IsAtomic missing id name f t e h = elim (Option-cases (find (has_id id) t.links)) [
  | inl absent ↦ rw (absent, LinkRepo.rename_link) refl
  | inr (l, found) ↦ elim (Bool-cases (name_taken id name t.links)) [
    | inl taken ↦ rw (found, LinkRepo.rename_link, taken) refl
    | inr free ↦ absurd (ground arith)
  ]
]

pub delete_link-IsAtomic : (id : ℕ) → IsAtomic (LinkRepo.delete_link id)
unfolding LinkRepo.delete_link
delete_link-IsAtomic id t e h = elim (Bool-cases (any (has_id id) t.links)) [
  | inl there ↦ absurd (ground arith)
  | inr absent ↦ rw absent refl
]

pub change_owner-IsAtomic : (id : ℕ) (email : Text) → IsAtomic (LinkRepo.change_owner id email)
unfolding LinkRepo.change_owner
change_owner-IsAtomic id email t e h = elim (Option-cases (find (has_id id) t.links)) [
  | inl absent ↦ rw (absent, LinkRepo.change_owner) refl
  | inr (l, found) ↦ absurd (ground arith)
]

-- A change of rows that all have another name, and keep one, does not show under a name.
pub find-update_where_other :
    (p : Link → Bool) (f : Link → Link) (k : Text) (ls : List Link)
    → All (λ l. p l ≡ true → (l.name_lower ≢ k) × ((f l).name_lower ≢ k)) ls
    → find (has_name k) (update_where p f ls) ≡ find (has_name k) ls
unfolding update_where
find-update_where_other p f k [] h = refl
find-update_where_other p f k (l ∷ ls) (h, hs) = elim (Bool-cases (p l)) [
  | inl hit ↦
      let (old, new) = h hit in
      rw hit (
        ground (
          arith,
          text_eq_iff l.name_lower k,
          text_eq_iff (f l).name_lower k,
          find-update_where_other p f k ls hs,
        ))
  | inr miss ↦ rw miss (ground (arith, find-update_where_other p f k ls hs))
]

-- The row that is found has the id it was sought by.
pub find-has_id : (id : ℕ) (ls : List Link) {l : Link} → find (has_id id) ls ≡ some l → l.id ≡ id
find-has_id id [] h = cc
find-has_id id (m ∷ ls) h = elim (Bool-cases (m.id == id)) [
  | inl hit ↦ ground (arith, ==_iff m.id id)
  | inr miss ↦ find-has_id id ls (rw miss at h)
]

-- Where ids are unique, every row with the id of a row that is found is that row.
pub found_is_All :
    (id : ℕ) (ls : List Link) {cur : Link}
    → Distinct (λ l. l.id) ls
    → find (has_id id) ls ≡ some cur
    → All (λ l. has_id id l ≡ true → l ≡ cur) ls
found_is_All id [] d h = tt
found_is_All id (m ∷ ls) {cur} (d, ds) h = elim (Bool-cases (m.id == id)) [
  | inl hit ↦
      let same : some m ≡ some cur = rw hit at h in
      (λ _. some_inj same, others id m.id ls ((==_iff m.id id).0 hit) d)
  | inr miss ↦ (λ hit. absurd (ground arith), found_is_All id ls ds (rw miss at h))
]
  where
    some_inj : {a b : Link} → some a ≡ some b → a ≡ b
    some_inj e = ground arith

    others :
        (i j : ℕ) (ms : List Link)
        → j ≡ i
        → All (λ n. n.id ≢ j) ms
        → All (λ l. has_id i l ≡ true → l ≡ cur) ms
    others i j [] e k = tt
    others i j (n ∷ ms) e (k, ks) = (λ hit. absurd (k (ground arith)), others i j ms e ks)
