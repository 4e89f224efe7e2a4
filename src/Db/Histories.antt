-- ===== src/Db/Histories.antt =====
-- Any history of operations on the link tables, whichever of their statements fail.
use golink_url_shortener.Base.{
  Bool-cases, Option-cases, any, find, All-keep, Text, to_lower, ℕ, ◌<◌, ◌≡◌, refl, inl, inr, Bool,
  not, ◌||◌, List, [], ◌∷◌,
}
use golink_url_shortener.Db.Models.{Link, LinkShare, LinkType}
use golink_url_shortener.Db.Sql.{Tables, Db}
use golink_url_shortener.Db.Rows.{has_id}
use golink_url_shortener.Db.Keeps.{Keeps, exec-Keeps}
use golink_url_shortener.Db.Distinct.{keep-Distinct}
use golink_url_shortener.Db.LinkRepo
use golink_url_shortener.Db.Invariant.{
  IsSound, create-IsSound, update-IsSound, set_alias-IsSound, update_where-IsSound,
}

-- The calls of LinkRepo that change the tables.
pub data Change : Type 0 where
  create : Text → Text → Text → LinkType → Text → Bool → Change
  update : ℕ → Text → Text → LinkType → Bool → Change
  set_alias : ℕ → Text → Text → Bool → ℕ → Change
  delete : ℕ → Change
  add_share remove_share : ℕ → Text → Change
  increment_use_count : ℕ → Change
  reassign_links : Text → Text → Change
  transfer_ownership : ℕ → Text → Change

unfoldable pub apply : Change → Db → Db
apply (create name target owner link_type alias_target auth) db =
    (LinkRepo.create name target owner link_type alias_target auth db).1
apply (update id name target link_type auth) db =
    (LinkRepo.update id name target link_type auth db).1
apply (set_alias id name target auth max) db = (LinkRepo.set_alias id name target auth max db).1
apply (delete id) db = (LinkRepo.delete id db).1
apply (add_share id email) db = (LinkRepo.add_share id email db).1
apply (remove_share id email) db = (LinkRepo.remove_share id email db).1
apply (increment_use_count id) db = (LinkRepo.increment_use_count id db).1
apply (reassign_links from to) db = (LinkRepo.reassign_links from to db).1
apply (transfer_ownership id email) db = (LinkRepo.transfer_ownership id email db).1

unfoldable pub apply_all : List Change → Db → Db
apply_all [] db = db
apply_all (c ∷ cs) db = apply_all cs (apply c db)

-- The same links in tables that differ elsewhere.
links-IsSound :
    (t : Tables) (shares : List LinkShare) → IsSound t → IsSound (record t { shares = shares })
links-IsSound t shares s = record {
  names = s.names;
  ids = s.ids;
  lowered = s.lowered;
  fresh = s.fresh;
}

delete_link-IsSound : (id : ℕ) (t : Tables) → IsSound t → IsSound (LinkRepo.delete_link id t).1
unfolding LinkRepo.delete_link
delete_link-IsSound id t s = elim (Bool-cases (any (has_id id) t.links)) [
  | inl there ↦
      let p = λ (l : Link). not (has_id id l) in
      rw there (record {
        names = keep-Distinct (λ l. l.name_lower) p t.links s.names;
        ids = keep-Distinct (λ l. l.id) p t.links s.ids;
        lowered = All-keep (λ l. l.name_lower ≡ to_lower l.name) p t.links s.lowered;
        fresh = All-keep (λ l. l.id < t.next_link_id) p t.links s.fresh;
      })
  | inr absent ↦ rw absent s
]

change_owner-IsSound :
    (id : ℕ) (email : Text) (t : Tables) → IsSound t → IsSound (LinkRepo.change_owner id email t).1
unfolding LinkRepo.change_owner
change_owner-IsSound id email t s = elim (Option-cases (find (has_id id) t.links)) [
  | inl absent ↦ rw (absent, LinkRepo.change_owner) s
  | inr (l, found) ↦
      rw (found, LinkRepo.change_owner)
        (update_where-IsSound (has_id id) (LinkRepo.owned_by email) (λ m. refl) (λ m. refl)
          (λ m. refl) t s)
]

insert_share-IsSound :
    (id : ℕ) (email : Text) (t : Tables) → IsSound t → IsSound (LinkRepo.insert_share id email t).1
unfolding LinkRepo.insert_share
insert_share-IsSound id email t s = elim (Bool-cases (any (LinkRepo.is_share id email) t.shares)) [
  | inl there ↦ rw there s
  | inr new ↦ elim (Bool-cases (not t.foreign_keys || any (has_id id) t.links)) [
    | inl allowed ↦ rw (new, allowed) (links-IsSound t _ s)
    | inr refused ↦ rw (new, refused) s
  ]
]

reassign_links-IsSound : (from to : Text) → Keeps IsSound (LinkRepo.reassign_links from to)
unfolding LinkRepo.reassign_links
reassign_links-IsSound from to =
    exec-Keeps IsSound _ (update_where-IsSound _ _ (λ l. refl) (λ l. refl) (λ l. refl))

increment_use_count-IsSound : (id : ℕ) → Keeps IsSound (LinkRepo.increment_use_count id)
unfolding LinkRepo.increment_use_count LinkRepo.add_uses
increment_use_count-IsSound id =
    exec-Keeps IsSound _ (λ t s. update_where-IsSound _ _ (λ l. refl) (λ l. refl) (λ l. refl) t s)

apply-IsSound : (c : Change) → (db : Db) → IsSound db.tables → IsSound (apply c db).tables
unfolding apply LinkRepo.delete LinkRepo.add_share LinkRepo.remove_share LinkRepo.transfer_ownership
apply-IsSound (create name target owner link_type alias_target auth) =
    create-IsSound name target owner link_type alias_target auth
apply-IsSound (update id name target link_type auth) = update-IsSound id name target link_type auth
apply-IsSound (set_alias id name target auth max) = set_alias-IsSound id name target auth max
apply-IsSound (delete id) = exec-Keeps IsSound _ (delete_link-IsSound id)
apply-IsSound (add_share id email) = exec-Keeps IsSound _ (insert_share-IsSound id email)
apply-IsSound (remove_share id email) = exec-Keeps IsSound _ (λ t s. links-IsSound t _ s)
apply-IsSound (increment_use_count id) = increment_use_count-IsSound id
apply-IsSound (reassign_links from to) = reassign_links-IsSound from to
apply-IsSound (transfer_ownership id email) = exec-Keeps IsSound _ (change_owner-IsSound id email)

-- Whatever calls are made on well-formed tables, and whichever of their statements fail, the
-- tables stay well formed: names and ids are unique, each lower-case name is that of its name, and
-- every id is below the next one.
pub apply_all-IsSound :
    (cs : List Change) (db : Db) → IsSound db.tables → IsSound (apply_all cs db).tables
unfolding apply_all
apply_all-IsSound [] db s = s
apply_all-IsSound (c ∷ cs) db s = apply_all-IsSound cs (apply c db) (apply-IsSound c db s)
