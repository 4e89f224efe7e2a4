-- ===== src/Db/Invariant.antt =====
-- The tables stay well formed: every operation of internal/db/link_repo.go keeps the columns that
-- identify a link.
use golink_url_shortener.Base.{
  ltb, Bool-cases, Option-cases, any, find, All, Text, to_lower, ℕ, ◌+◌, ◌<◌, ◌≡◌, refl, sym, ap,
  ◌∙◌, inl, inr, Bool, arith,
}
use golink_url_shortener.Db.Models.{Link, LinkType}
use golink_url_shortener.Db.Sql.{Tables, DbError}
use golink_url_shortener.Db.Rows.{has_id, has_name, update_where, name_taken}
use golink_url_shortener.Db.Keeps.{Keeps, exec-Keeps, bind-Keeps, transaction-Keeps}
use golink_url_shortener.Db.Distinct.{
  Distinct, not-any-name, fresh-differs, fresh-grows, update_where-All, update_where-Distinct,
  rename-Distinct,
}
use golink_url_shortener.Db.LinkRepo

-- Names and ids are unique, the stored lower case is that of the name, and ids are below the next.
pub record IsSound (t : Tables) : Type 0 where
  pub names : Distinct (λ l. l.name_lower) t.links
  pub ids : Distinct (λ l. l.id) t.links
  pub lowered : All (λ l. l.name_lower ≡ to_lower l.name) t.links
  pub fresh : All (λ l. l.id < t.next_link_id) t.links

-- A change of columns that do not identify a link.
module _ (p : Link → Bool) (f : Link → Link) (same_id : (l : Link) → (f l).id ≡ l.id)
    (same_name : (l : Link) → (f l).name ≡ l.name)
    (same_lower : (l : Link) → (f l).name_lower ≡ l.name_lower) where
  pub update_where-IsSound :
      (t : Tables) → IsSound t → IsSound (record t { links = update_where p f t.links })
  update_where-IsSound t s = record {
    names = update_where-Distinct (λ l. l.name_lower) p f same_lower t.links s.names;
    ids = update_where-Distinct (λ l. l.id) p f same_id t.links s.ids;
    lowered =
        update_where-All (λ l. l.name_lower ≡ to_lower l.name) p f
          (λ l h. same_lower l ∙ h ∙ ap to_lower (sym (same_name l))) t.links s.lowered;
    fresh =
        update_where-All (λ l. l.id < t.next_link_id) p f (λ l h. rw (same_id l) h) t.links s.fresh;
  }

insert_link-IsSound :
    (name target owner : Text) (link_type : LinkType) (alias_target : Text) (auth : Bool)
    (t : Tables)
    → IsSound t
    → IsSound (LinkRepo.insert_link name target owner link_type alias_target auth t).1
unfolding LinkRepo.insert_link
insert_link-IsSound name target owner link_type alias_target auth t s =
    elim (Bool-cases (any (has_name (to_lower name)) t.links)) [
      | inl taken ↦ rw taken s
      | inr free ↦ rw free (record {
        names = (not-any-name (to_lower name) t.links free, s.names);
        ids = (fresh-differs t.next_link_id t.links s.fresh, s.ids);
        lowered = (refl, s.lowered);
        fresh = (omega arith, fresh-grows t.next_link_id t.links s.fresh);
      })
    ]

rename_link-IsSound :
    (missing : DbError) (id : ℕ) (name : Text) (change : Link → Link) (t : Tables)
    → ((l : Link) → (change l).id ≡ l.id)
    → ((l : Link) → (change l).name_lower ≡ to_lower (change l).name)
    → ((l : Link) → (change l).name_lower ≡ name)
    → IsSound t
    → IsSound (LinkRepo.rename_link missing id name change t).1
unfolding LinkRepo.rename_link
rename_link-IsSound missing id name change t same low named s =
    elim (Option-cases (find (has_id id) t.links)) [
      | inl absent ↦ rw (absent, LinkRepo.rename_link) s
      | inr (l, found) ↦ elim (Bool-cases (name_taken id name t.links)) [
        | inl taken ↦ rw (found, LinkRepo.rename_link, taken) s
        | inr free ↦
            rw (found, LinkRepo.rename_link, free)
              (record {
                names = rename-Distinct id name change named t.links free s.ids s.names;
                ids = update_where-Distinct (λ l. l.id) (has_id id) change same t.links s.ids;
                lowered =
                    update_where-All (λ l. l.name_lower ≡ to_lower l.name) (has_id id) change
                      (λ l h. low l) t.links s.lowered;
                fresh =
                    update_where-All (λ l. l.id < t.next_link_id) (has_id id) change
                      (λ l h. rw (same l) h) t.links s.fresh;
              })
      ]
    ]

pub create-IsSound :
    (name target owner : Text) (link_type : LinkType) (alias_target : Text) (auth : Bool)
    → Keeps IsSound (LinkRepo.create name target owner link_type alias_target auth)
unfolding LinkRepo.create
create-IsSound name target owner link_type alias_target auth =
    exec-Keeps IsSound _ (insert_link-IsSound name target owner link_type alias_target auth)

pub update-IsSound :
    (id : ℕ) (name target : Text) (link_type : LinkType) (auth : Bool)
    → Keeps IsSound (LinkRepo.update id name target link_type auth)
unfolding LinkRepo.update LinkRepo.updated_link
update-IsSound id name target link_type auth = exec-Keeps IsSound _ (λ t.
    rename_link-IsSound _ id (to_lower name) (LinkRepo.updated_link name target link_type auth) t
      (λ l. refl) (λ l. refl) (λ l. refl))

convert-IsSound :
    (id : ℕ) (name alias_target : Text) (auth : Bool)
    → Keeps IsSound (LinkRepo.convert id name alias_target auth)
unfolding LinkRepo.convert LinkRepo.aliased_link
convert-IsSound id name alias_target auth = exec-Keeps IsSound _ (λ t.
    rename_link-IsSound _ id (to_lower name) (LinkRepo.aliased_link name alias_target auth) t
      (λ l. refl) (λ l. refl) (λ l. refl))

reparent-IsSound : (from to : Text) → Keeps IsSound (LinkRepo.reparent from to)
unfolding LinkRepo.reparent LinkRepo.reparent_links
reparent-IsSound from to =
    exec-Keeps IsSound _ (update_where-IsSound _ _ (λ l. refl) (λ l. refl) (λ l. refl))

reparent_and_convert-IsSound :
    (current : Text) (m n id : ℕ) (name target : Text) (auth : Bool) (max : ℕ)
    → Keeps IsSound (LinkRepo.reparent_and_convert current m n id name target auth max)
unfolding LinkRepo.reparent_and_convert
reparent_and_convert-IsSound current m n id name target auth max =
    elim (Bool-cases (ltb max (m + n + 1))) [
      | inl over ↦ rw over (λ db h. h)
      | inr fits ↦ elim (Bool-cases (ltb 0 n)) [
        | inl some_own ↦
            rw (fits, some_own)
              (bind-Keeps IsSound (LinkRepo.reparent current target) _
                (reparent-IsSound current target) (λ _. convert-IsSound id name target auth))
        | inr no_own ↦ rw (fits, no_own) (convert-IsSound id name target auth)
      ]
    ]

pub set_alias-IsSound :
    (id : ℕ) (name target : Text) (auth : Bool) (max : ℕ)
    → Keeps IsSound (LinkRepo.set_alias id name target auth max)
unfolding LinkRepo.set_alias LinkRepo.set_alias_body LinkRepo.name_of LinkRepo.count_aliases
set_alias-IsSound id name target auth max = transaction-Keeps IsSound _ (
    bind-Keeps IsSound (LinkRepo.name_of id) _ (exec-Keeps IsSound _ (λ t h. h)) (λ current.
      bind-Keeps IsSound (LinkRepo.count_aliases target) _ (exec-Keeps IsSound _ (λ t h. h)) (λ m.
        bind-Keeps IsSound (LinkRepo.count_aliases current) _ (exec-Keeps IsSound _ (λ t h. h))
          (λ n. reparent_and_convert-IsSound current m n id name target auth max))))
