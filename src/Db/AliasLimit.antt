-- ===== src/Db/AliasLimit.antt =====
-- The limit on the aliases of a link.
use golink_url_shortener.Base.{
  ◌==◌, ==_iff, Bool-cases, count, All, Text, text_eq_refl, ℕ, ◌+◌, ◌≤◌, ◌≡◌, refl, sym, ◌≢◌, inl,
  inr, Bool, List, [], ◌∷◌, arith,
}
use golink_url_shortener.Base.{ok}
use golink_url_shortener.Db.Models.{Link}
use golink_url_shortener.Db.Sql.{Tables, Db}
use golink_url_shortener.Db.Rows.{has_id, has_alias_target, update_where}
use golink_url_shortener.Db.Distinct.{Distinct, update_where-absent, update_where-Distinct}
use golink_url_shortener.Db.Invariant.{IsSound}
use golink_url_shortener.Db.SetAlias.{set_alias-changes}
use golink_url_shortener.Db.LinkRepo
use mathlib.Core.Path.{subst}

count-reparented :
    (from to : Text) (ls : List Link)
    → count (has_alias_target to) (update_where (has_alias_target from) (LinkRepo.reparented to) ls)
      ≤ count (has_alias_target to) ls + count (has_alias_target from) ls
unfolding update_where
count-reparented from to [] = omega arith
count-reparented from to (l ∷ ls) = ground (arith, count-reparented from to ls, text_eq_refl to)

-- A change of the one row with an id adds at most one to a count.
count-update_id :
    (p : Link → Bool) (id : ℕ) (f : Link → Link) (ls : List Link)
    → Distinct (λ l. l.id) ls
    → count p (update_where (has_id id) f ls) ≤ count p ls + 1
unfolding update_where
count-update_id p id f [] h = omega arith
count-update_id p id f (l ∷ ls) (h, hs) = elim (Bool-cases (l.id == id)) [
  | inl hit ↦
      let others = subst (λ k. All (λ (m : Link). m.id ≢ k) ls) ((==_iff l.id id).0 hit) h in
      rw (hit, update_where-absent id f ls others) (ground arith)
  | inr miss ↦ rw miss (ground (arith, count-update_id p id f ls hs))
]

-- After SetAlias has succeeded on well-formed tables, no more links alias the target than the
-- limit allows, the aliases that were moved to it counted.
pub set_alias-limit :
    (id : ℕ) (name target : Text) (auth : Bool) (max : ℕ) (db : Db) (l : Link)
    → IsSound db.tables
    → (LinkRepo.set_alias id name target auth max db).0 ≡ ok l
    → count (has_alias_target target) (LinkRepo.set_alias id name target auth max db).1.tables.links
      ≤ max
set_alias-limit id name target auth max db l s h =
    let (cur, found, fits, changed) = set_alias-changes id name target auth max db l h in
    let moved =
      update_where (has_alias_target cur.name_lower) (LinkRepo.reparented target) db.tables.links in
    subst (λ (t : Tables). count (has_alias_target target) t.links ≤ max) (sym changed)
      (omega (
        arith,
        count-reparented cur.name_lower target db.tables.links,
        count-update_id (has_alias_target target) id (LinkRepo.aliased_link name target auth) moved
            (update_where-Distinct (λ l. l.id) (has_alias_target cur.name_lower)
              (LinkRepo.reparented target) (λ l. refl) db.tables.links s.ids),
      ))
