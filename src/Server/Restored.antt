-- ===== src/Server/Restored.antt =====
-- What an import of an export restores.
use golink_url_shortener.Base.{
  ◌==◌, ==_iff, ==_refl, Bool-cases, any, find, Text, text_eq, is_empty, is_upper, lower, to_lower,
  trim_space, text_eq-eq, ℕ, ◌+◌, ◌≡◌, refl, sym, ap, ◌∙◌, inl, inr, Bool, true, false, not, ◌&&◌,
  ◌||◌, Option, none, some, List, [], ◌∷◌, arith,
}
use golink_url_shortener.Base.{ok, err}
use golink_url_shortener.Config.{Config}
use golink_url_shortener.Db.Models.{Link, LinkType, simple, advanced, alias, LinkShare}
use golink_url_shortener.Db.Sql.{Tables, Db, exec, not_found}
use golink_url_shortener.Db.LinkRepo
use golink_url_shortener.Db.LinkRepo.{is_share, found_or}
use golink_url_shortener.Db.Rows.{has_id, has_name}
use golink_url_shortener.Db.Repo.{sql_repo}
use golink_url_shortener.Db.UseTotals.{fault_free}
use golink_url_shortener.Links.Validate.{validate_name}
use golink_url_shortener.Server.Handler.{Identity}
use golink_url_shortener.Server.Json.{link_type_to_string, link_type_from_string-to_string}
use golink_url_shortener.Server.Import.{
  ExportLink, Entry, was_created, was_skipped, settled_create, valid_entry, entry_target_valid,
  entry_owner, add_shares, create_entry, upsert, import_link, normalised,
}
use golink_url_shortener.Server.Export.{export_link}

-- Whether a link of the name is shared with the address.
abbrev pub shared : Text → Text → List LinkShare → List Link → Bool
shared name email shares ls = any (λ l. has_name name l && any (is_share l.id email) shares) ls

insert_share-any :
    (id : ℕ) (email : Text) (t : Tables) (j : ℕ) (e : Text)
    → any (has_id id) t.links ≡ true
    → any (is_share j e) (LinkRepo.insert_share id email t).1.shares
      ≡ ((id == j && text_eq email e) || any (is_share j e) t.shares)
unfolding LinkRepo.insert_share
insert_share-any id email t j e there = elim (Bool-cases (any (is_share id email) t.shares)) [
  | inl old ↦ elim (Bool-cases (id == j && text_eq email e)) [
    | inl same ↦
        let ids : id ≡ j = (==_iff id j).0 (ground arith) in
        let emails : email ≡ e = text_eq-eq email e (ground arith) in
        let moved : any (is_share j e) t.shares ≡ true =
          ap (λ i. any (is_share i e) t.shares) (sym ids)
          ∙ ap (λ s. any (is_share id s) t.shares) (sym emails)
          ∙ old in
        rw (old, same, moved) refl
    | inr other ↦ rw (old, other) refl
  ]
  | inr new ↦ elim (Bool-cases t.foreign_keys) [
    | inl enforced ↦ rw (new, enforced, there) refl
    | inr ignored ↦ rw (new, ignored) refl
  ]
]

insert_share-keeps :
    (id : ℕ) (email : Text) (t : Tables)
    → ((LinkRepo.insert_share id email t).1.links ≡ t.links)
      × ((LinkRepo.insert_share id email t).1.next_link_id ≡ t.next_link_id)
unfolding LinkRepo.insert_share
insert_share-keeps id email t = elim (Bool-cases (any (is_share id email) t.shares)) [
  | inl old ↦ rw old (refl, refl)
  | inr new ↦ elim (Bool-cases (not t.foreign_keys || any (has_id id) t.links)) [
    | inl there ↦ rw (new, there) (refl, refl)
    | inr missing ↦ rw (new, missing) (refl, refl)
  ]
]

-- What the shares of an entry add to tables with its link.
pub record Adds (id : ℕ) (es : List Text) (t t' : Tables) : Type 0 where
  pub links : t'.links ≡ t.links
  pub next : t'.next_link_id ≡ t.next_link_id
  pub shares :
      (j : ℕ) (e : Text)
      → any (is_share j e) t'.shares
        ≡ ((id == j && any (λ s. text_eq s e) es) || any (is_share j e) t.shares)

-- A link that an import accepts, and stores as it stands: its name and its target are valid, it has
-- an owner, and no field has spaces around it.
pub record IsPortable (l : Link) : Type 0 where
  pub valid_name : validate_name l.name ≡ none
  pub valid_target : entry_target_valid l.link_type (export_link l []) ≡ true
  pub owned : is_empty l.owner_email ≡ false
  pub lower_name : to_lower l.name ≡ l.name_lower
  pub trimmed_name : trim_space l.name ≡ l.name
  pub trimmed_target : trim_space l.target ≡ l.target
  pub trimmed_alias : to_lower (trim_space l.alias_target) ≡ l.alias_target

-- The row that an import makes of a link.
abbrev pub restored_row : Tables → Link → Link
restored_row t l = record l {
  id = t.next_link_id;
  created_at = t.now;
  last_used_at = none;
  use_count = 0;
}

-- The tables with the row that an import makes of a link.
abbrev pub with_row : Tables → Link → Tables
with_row t l = record t { links = restored_row t l ∷ t.links; next_link_id = t.next_link_id + 1 }

normalised-same :
    (l : Link) (es : List Text) → IsPortable l → normalised (export_link l es) ≡ export_link l es
unfolding export_link
normalised-same l es p = rw (p.trimmed_name, p.trimmed_target, p.trimmed_alias) refl

valid_target_any :
    (t : LinkType) (l : Link) (es : List Text)
    → entry_target_valid t (export_link l es) ≡ entry_target_valid t (export_link l [])
unfolding entry_target_valid export_link
valid_target_any simple l es = refl
valid_target_any advanced l es = refl
valid_target_any alias l es = refl

to_string_lower : (t : LinkType) → to_lower (link_type_to_string t) ≡ link_type_to_string t
unfolding link_type_to_string to_lower lower is_upper
to_string_lower simple = refl
to_string_lower advanced = refl
to_string_lower alias = refl

valid_entry-portable :
    (l : Link) (es : List Text) → IsPortable l → valid_entry (export_link l es) ≡ some l.link_type
unfolding valid_entry export_link
valid_entry-portable l es p =
    rw
      (
        valid_entry,
        export_link,
        p.valid_name,
        link_type_from_string-to_string l.link_type (link_type_to_string l.link_type)
            (to_string_lower l.link_type),
        valid_target_any l.link_type l es,
        p.valid_target,
      )
      refl

module _ (cfg : Config) where
  add_shares-Adds :
      (id : ℕ) (es : List Text) (t : Tables)
      → any (has_id id) t.links ≡ true
      → (t' : Tables) × (add_shares sql_repo cfg id es (fault_free t) ≡ fault_free t')
        × Adds id es t t'
  unfolding add_shares LinkRepo.add_share exec
  add_shares-Adds id [] t there =
      (t, refl, record { links = refl; next = refl; shares = λ j e. ground arith })
  add_shares-Adds id (email ∷ es) t there =
      let t1 = (LinkRepo.insert_share id email t).1 in
      let (same, next) = insert_share-keeps id email t in
      let (t', e, adds) = add_shares-Adds id es t1 (ap (any (has_id id)) same ∙ there) in
      (
        t',
        e,
        record {
          links = adds.links ∙ same;
          next = adds.next ∙ next;
          shares = λ j e. adds.shares j e ∙ ground (arith, insert_share-any id email t j e there);
        },
      )

  not_there :
      (name : Text) (t : Tables)
      → any (has_name name) t.links ≡ false
      → LinkRepo.get_by_name name (fault_free t) ≡ (err not_found, fault_free t)
  unfolding LinkRepo.get_by_name exec
  not_there name t free = ap (λ o. (found_or not_found o, fault_free t)) (find-none t.links free)
    where
      find-none : (ls : List Link) → any (has_name name) ls ≡ false → find (has_name name) ls ≡ none
      find-none [] h = refl
      find-none (l ∷ ls) h = ground (arith, find-none ls)

  created :
      (id : Option Identity) (l : Link) (es : List Text) (t : Tables)
      → IsPortable l
      → any (has_name l.name_lower) t.links ≡ false
      → LinkRepo.create l.name l.target
          (entry_owner id (export_link l es))
          l.link_type
          l.alias_target
          l.require_auth
          (fault_free t)
        ≡ (ok (restored_row t l), fault_free (with_row t l))
  unfolding LinkRepo.create LinkRepo.insert_link exec entry_owner export_link
  created id l es t p free = rw (p.lower_name, p.owned, free) refl

  entered : Option Identity → ExportLink → Option LinkType → Db → Entry × Db
  entered id el v s = elim v [
    | none ↦ (was_skipped, s)
    | some t ↦ upsert sql_repo cfg id t el (sql_repo.get_by_name (to_lower el.name) s)
  ]

  upserted :
      (id : Option Identity) (l : Link) (es : List Text) (t : Tables)
      → IsPortable l
      → any (has_name l.name_lower) t.links ≡ false
      → upsert sql_repo cfg id l.link_type
          (export_link l es)
          (LinkRepo.get_by_name (to_lower l.name) (fault_free t))
        ≡ (was_created, add_shares sql_repo cfg t.next_link_id es (fault_free (with_row t l)))
  unfolding upsert create_entry export_link
  upserted id l es t p free =
      ap
        (λ name.
          upsert sql_repo cfg id l.link_type (export_link l es)
            (LinkRepo.get_by_name name (fault_free t)))
        p.lower_name
      ∙ ap (upsert sql_repo cfg id l.link_type (export_link l es)) (not_there l.name_lower t free)
      ∙ ap (settled_create sql_repo cfg es) (created id l es t p free)

  pub import_link-creates :
      (id : Option Identity) (l : Link) (es : List Text) (t : Tables)
      → IsPortable l
      → any (has_name l.name_lower) t.links ≡ false
      → (t' : Tables) × (import_link sql_repo cfg id (export_link l es) (fault_free t)
          ≡ (was_created, fault_free t'))
        × Adds t.next_link_id es (with_row t l) t'
  unfolding import_link export_link entered
  import_link-creates id l es t p free =
      let (t', shares, adds) =
        add_shares-Adds t.next_link_id es (with_row t l)
          (ap (λ b. b || any (has_id t.next_link_id) t.links) (==_refl t.next_link_id)) in
      (
        t',
        ap (λ el. entered id el (valid_entry el) (fault_free t)) (normalised-same l es p)
            ∙ ap (λ v. entered id (export_link l es) v (fault_free t)) (valid_entry-portable l es p)
            ∙ upserted id l es t p free
            ∙ ap (λ s. (was_created, s)) shares,
        adds,
      )
