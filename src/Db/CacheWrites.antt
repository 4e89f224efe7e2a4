-- ===== src/Db/CacheWrites.antt =====
-- What the writes of internal/db/link_repo.go change of the lookup by name, which the cache of
-- internal/db/cache.go answers.
use golink_url_shortener.Base.{
  All-imply, Bool-cases, Option-cases, any, find, Text, to_lower, text_eq_refl, text_eq_iff, ℕ, ◌≡◌,
  refl, sym, ap, ◌∙◌, ◌≢◌, inl, inr, Bool, true, some, List, [], ◌∷◌, arith,
}
use golink_url_shortener.Base.{All-imply, Result, ok}
use golink_url_shortener.Db.Models.{Link, LinkType}
use golink_url_shortener.Db.Sql.{Tables, DbError}
use golink_url_shortener.Db.Rows.{has_id, has_name, update_where, name_taken}
use golink_url_shortener.Db.LinkRepo
use golink_url_shortener.Db.Distinct.{Distinct}
use golink_url_shortener.Db.Invariant.{IsSound}
use golink_url_shortener.Db.Lookups.{find-update_where_other, found_is_All}
use golink_url_shortener.Db.Coherence.{without_uses}

-- A new row shows under its own name, and under no other.
pub insert_link-lookup :
    (name target owner : Text) (link_type : LinkType) (alias_target : Text) (auth : Bool)
    (t : Tables) (l : Link)
    → (LinkRepo.insert_link name target owner link_type alias_target auth t).0 ≡ ok l
    → (find
          (has_name l.name_lower)
          (LinkRepo.insert_link name target owner link_type alias_target auth t).1.links
        ≡ some l)
      × ((k : Text)
          → k ≢ l.name_lower
          → find
              (has_name k)
              (LinkRepo.insert_link name target owner link_type alias_target auth t).1.links
            ≡ find (has_name k) t.links)
unfolding LinkRepo.insert_link
insert_link-lookup name target owner link_type alias_target auth t l h =
    elim (Bool-cases (any (has_name (to_lower name)) t.links)) [
      | inl taken ↦ absurd (ground arith)
      | inr free ↦
          let same = row_eq (rw free at h) in
          (
            rw free (ground (arith, text_eq_refl l.name_lower, same)),
            λ k other. rw free (ground (arith, text_eq_iff l.name_lower k, same)),
          )
    ]
  where
    row_eq : {a : Link} → ◌≡◌ {A = Result DbError Link} (ok a) (ok l) → a ≡ l
    row_eq e = ground arith

-- A change of the row with an id shows only under the name that the row has and keeps.
pub update_id-lookup :
    (id : ℕ) (f : Link → Link) (name : Text) (ls : List Link) (cur : Link)
    → Distinct (λ l. l.id) ls
    → find (has_id id) ls ≡ some cur
    → cur.name_lower ≡ name
    → (f cur).name_lower ≡ name
    → (k : Text) → k ≢ name
    → find (has_name k) (update_where (has_id id) f ls) ≡ find (has_name k) ls
update_id-lookup id f name ls cur d found old new k other =
    find-update_where_other (has_id id) f k ls (
      All-imply (λ l. has_id id l ≡ true → l ≡ cur)
        (λ l. has_id id l ≡ true → (l.name_lower ≢ k) × ((f l).name_lower ≢ k))
        (λ l only hit.
          let same = only hit in
          (
            λ e. other (sym e ∙ ap (λ (m : Link). m.name_lower) same ∙ old),
            λ e. other (sym e ∙ ap (λ (m : Link). (f m).name_lower) same ∙ new),
          ))
        ls (found_is_All id ls d found))

pub rename_link-lookup :
    (e : DbError) (id : ℕ) (name : Text) (f : Link → Link) (t : Tables) (l : Link)
    → IsSound t
    → ((cur : Link) → find (has_id id) t.links ≡ some cur → cur.name_lower ≡ name)
    → ((m : Link) → (f m).name_lower ≡ name)
    → (LinkRepo.rename_link e id name f t).0 ≡ ok l
    → (l.name_lower ≡ name)
      × ((k : Text)
          → k ≢ name
          → find (has_name k) (LinkRepo.rename_link e id name f t).1.links
            ≡ find (has_name k) t.links)
unfolding LinkRepo.rename_link
rename_link-lookup e id name f t l s old new h = elim (Option-cases (find (has_id id) t.links)) [
  | inl absent ↦ absurd (ground arith)
  | inr (cur, found) ↦ elim (Bool-cases (name_taken id name t.links)) [
    | inl taken ↦ absurd (ground arith)
    | inr free ↦ (
      ap (λ (m : Link). m.name_lower) (ok_inj (rw (found, LinkRepo.rename_link, free) at h))
          ∙ new cur,
      λ k other.
          rw (found, LinkRepo.rename_link, free)
            (update_id-lookup id f name t.links cur s.ids found (old cur found) (new cur) k other),
    )
  ]
]
  where
    ok_inj : {a : Link} → ◌≡◌ {A = Result DbError Link} (ok a) (ok l) → l ≡ a
    ok_inj q = ground arith

pub change_owner-lookup :
    (id : ℕ) (email : Text) (t : Tables) (l : Link)
    → Distinct (λ m. m.id) t.links
    → (LinkRepo.change_owner id email t).0 ≡ ok l
    → (k : Text) → k ≢ l.name_lower
    → find (has_name k) (LinkRepo.change_owner id email t).1.links ≡ find (has_name k) t.links
unfolding LinkRepo.change_owner
change_owner-lookup id email t l d h k other = elim (Option-cases (find (has_id id) t.links)) [
  | inl absent ↦ absurd (ground arith)
  | inr (cur, found) ↦
      let same : l.name_lower ≡ cur.name_lower =
        ap (λ (m : Link). m.name_lower) (ok_inj (rw (found, LinkRepo.change_owner) at h)) in
      rw (found, LinkRepo.change_owner)
        (update_id-lookup id (LinkRepo.owned_by email) cur.name_lower t.links cur d found refl refl
          k (λ e. other (e ∙ sym same)))
]
  where
    ok_inj : {a : Link} → ◌≡◌ {A = Result DbError Link} (ok a) (ok l) → l ≡ a
    ok_inj q = ground arith

-- A change of the columns of uses alone leaves what is found under a name alike.
pub find-update_where_uses :
    (p : Link → Bool) (f : Link → Link) (k : Text) (ls : List Link) (w : Link)
    → ((l : Link) → (f l).name_lower ≡ l.name_lower)
    → ((l : Link) → without_uses (f l) ≡ without_uses l)
    → find (has_name k) ls ≡ some w
    → (v : Link) × (find (has_name k) (update_where p f ls) ≡ some v)
      × (without_uses v ≡ without_uses w)
unfolding update_where
find-update_where_uses p f k [] w same_name same h = absurd (ground arith)
find-update_where_uses p f k (l ∷ ls) w same_name same h = elim (Bool-cases (has_name k l)) [
  | inl named ↦
      let e : l ≡ w = some_inj (rw named at h) in
      elim (Bool-cases (p l)) [
        | inl hit ↦ (f l, rw (hit, same_name l, named) refl, same l ∙ ap without_uses e)
        | inr miss ↦ (l, rw (miss, named) refl, ap without_uses e)
      ]
  | inr other ↦
      let (v, found, e) = find-update_where_uses p f k ls w same_name same (rw other at h) in
      elim (Bool-cases (p l)) [
        | inl hit ↦ (v, rw (hit, same_name l, other) found, e)
        | inr miss ↦ (v, rw (miss, other) found, e)
      ]
]
  where
    some_inj : {a b : Link} → some a ≡ some b → a ≡ b
    some_inj e = ground arith
