-- ===== src/Server/Importable.antt =====
-- What an import makes of exported links, by an induction over them.
use golink_url_shortener.Base.{
  ◌==◌, ==_iff, ==_refl, Bool-cases, length, any, find, keep, All, Text, text_eq, trim_space,
  text_eq-eq, ℕ, ◌+◌, ◌≤◌, ◌<◌, ◌≡◌, refl, sym, ap, ◌∙◌, ◌≢◌, inl, inr, Bool, true, false, ◌&&◌,
  ◌||◌, Option, none, some, List, [], ◌∷◌, map, arith,
}
use mathlib.Core.Path.{subst}
use golink_url_shortener.Config.{Config}
use golink_url_shortener.Db.Models.{Link, LinkType, LinkShare}
use golink_url_shortener.Db.Sql.{Tables}
use golink_url_shortener.Db.Distinct.{Distinct, fresh-grows}
use golink_url_shortener.Db.LinkRepo.{is_share}
use golink_url_shortener.Db.Rows.{has_name}
use golink_url_shortener.Db.Repo.{sql_repo}
use golink_url_shortener.Db.UseTotals.{fault_free}
use golink_url_shortener.Server.Authorised.{shares_of}
use golink_url_shortener.Server.Handler.{Identity, ImportResult}
use golink_url_shortener.Server.Import.{was_created, tally, do_import}
use golink_url_shortener.Server.Export.{export_link, exported}
use golink_url_shortener.Server.Restored.{
  shared, Adds, IsPortable, restored_row, with_row, import_link-creates,
}

-- What a link is, apart from its number and its uses.
pub record Content : Type 0 where
  pub name : Text
  pub target : Text
  pub owner_email : Text
  pub link_type : LinkType
  pub alias_target : Text
  pub require_auth : Bool

abbrev pub content_of : Option Link → Option Content
content_of none = none
content_of (some l) = some (record {
  name = l.name;
  target = l.target;
  owner_email = l.owner_email;
  link_type = l.link_type;
  alias_target = l.alias_target;
  require_auth = l.require_auth;
})

abbrev pub or_else : Option Link → Option Link → Option Link
or_else none o = o
or_else (some l) o = some l

-- Links that can be imported into tables.
pub record Ready (ls : List Link) (t : Tables) : Type 0 where
  pub portable : All IsPortable ls
  pub distinct : Distinct (λ l. l.name_lower) ls
  pub free : All (λ l. any (has_name l.name_lower) t.links ≡ false) ls
  pub below : All (λ m. m.id < t.next_link_id) t.links
  pub unshared : (j : ℕ) (e : Text) → t.next_link_id ≤ j → any (is_share j e) t.shares ≡ false

-- The second tables hold the links with their shares, and what the first held.
pub record Restores (ls : List Link) (ss : List LinkShare) (t t' : Tables) : Type 0 where
  pub contents :
      (name : Text)
      → content_of (find (has_name name) t'.links)
        ≡ content_of (or_else (find (has_name name) ls) (find (has_name name) t.links))
  pub shares :
      (name e : Text)
      → shared name e t'.shares t'.links ≡ (shared name e ss ls || shared name e t.shares t.links)

still_free :
    (l : Link) (t : Tables) (ls : List Link)
    → All (λ m. m.name_lower ≢ l.name_lower) ls
    → All (λ m. any (has_name m.name_lower) t.links ≡ false) ls
    → All (λ m. any (has_name m.name_lower) (restored_row t l ∷ t.links) ≡ false) ls
still_free l t [] d f = tt
still_free l t (m ∷ ms) (d, ds) (f, fs) = (
  elim (Bool-cases (text_eq l.name_lower m.name_lower)) [
    | inl same ↦ absurd (d (sym (text_eq-eq l.name_lower m.name_lower same)))
    | inr other ↦ ground arith
  ],
  still_free l t ms ds fs,
)

step-Ready :
    (l : Link) (ls : List Link) (es : List Text) (t t1 : Tables)
    → Ready (l ∷ ls) t
    → Adds t.next_link_id es (with_row t l) t1
    → Ready ls t1
step-Ready l ls es t t1 r a = record {
  portable = r.portable.1;
  distinct = r.distinct.1;
  free =
      subst (λ links. All (λ m. any (has_name m.name_lower) links ≡ false) ls) (sym a.links)
        (still_free l t ls r.distinct.0 r.free.1);
  below =
      subst (λ links. All (λ m. m.id < t1.next_link_id) links) (sym a.links)
        (subst (λ n. All (λ m. m.id < n) (restored_row t l ∷ t.links)) (sym a.next)
          (omega arith, fresh-grows t.next_link_id t.links r.below));
  unshared = λ j e h.
      a.shares j e
      ∙ ground (arith, ==_iff t.next_link_id j, r.unshared j e (omega (arith, a.next)), a.next);
}

shares_of-any :
    (id : ℕ) (e : Text) (t : Tables)
    → any (λ s. text_eq s e) (shares_of id t) ≡ any (is_share id e) t.shares
shares_of-any id e t = go t.shares
  where
    go :
        (ss : List LinkShare)
        → any (λ s. text_eq s e) (map (λ s. s.shared_with_email) (keep (λ s. s.link_id == id) ss))
          ≡ any (is_share id e) ss
    go [] = refl
    go (s ∷ ss) = ground (arith, go ss)

-- The shares of the rows that were there are those they had.
old_shares :
    (name e : Text) (es : List Text) (t t1 : Tables) (ls : List Link)
    → All (λ m. m.id < t.next_link_id) ls
    → ((j : ℕ)
        → any (is_share j e) t1.shares
          ≡ ((t.next_link_id == j && any (λ s. text_eq s e) es) || any (is_share j e) t.shares))
    → shared name e t1.shares ls ≡ shared name e t.shares ls
old_shares name e es t t1 [] below h = refl
old_shares name e es t t1 (m ∷ ms) (b, bs) h =
    ground (arith, h m.id, ==_iff t.next_link_id m.id, old_shares name e es t t1 ms bs h)

find-other :
    (name : Text) (l : Link) (ls : List Link)
    → All (λ m. m.name_lower ≢ l.name_lower) ls
    → has_name name l ≡ true
    → find (has_name name) ls ≡ none
find-other name l [] d h = refl
find-other name l (m ∷ ms) (d, ds) h = elim (Bool-cases (has_name name m)) [
  | inl same ↦ absurd (d (text_eq-eq m.name_lower name same ∙ sym (text_eq-eq l.name_lower name h)))
  | inr other ↦ rw other (find-other name l ms ds h)
]

step-Restores :
    (T : Tables) (l : Link) (ls : List Link) (t t1 t' : Tables)
    → Ready (l ∷ ls) t
    → Adds t.next_link_id (shares_of l.id T) (with_row t l) t1
    → Restores ls T.shares t1 t'
    → Restores (l ∷ ls) T.shares t t'
step-Restores T l ls t t1 t' r a ih = record {
  contents = λ name.
      ih.contents name
      ∙ ap (λ links. content_of (or_else (find (has_name name) ls) (find (has_name name) links)))
          a.links
      ∙ (elim (Bool-cases (has_name name l)) [
        | inl hit ↦ rw (hit, find-other name l ls r.distinct.0 hit) refl
        | inr miss ↦ rw miss refl
      ]);
  shares = λ name e.
      ih.shares name e
      ∙ ap (λ links. shared name e T.shares ls || shared name e t1.shares links) a.links
      ∙ ground (
        arith,
        a.shares t.next_link_id e,
        ==_refl t.next_link_id,
        r.unshared t.next_link_id e (omega arith),
        shares_of-any l.id e T,
        old_shares name e (shares_of l.id T) t t1 t.links r.below (λ j. a.shares j e),
      );
}

-- What an import answers to links that it has created.
abbrev pub Counts : ℕ → ImportResult → ImportResult → Type 0
Counts n r r' = (r'.created ≡ r.created + n) × (r'.updated ≡ r.updated) × (r'.skipped ≡ r.skipped)

module _ (cfg : Config) where
  pub do_import-Restores :
      (id : Option Identity) (T : Tables) (ls : List Link) (r : ImportResult) (t : Tables)
      → Ready ls t
      → (r' : ImportResult) × (t' : Tables) × (do_import sql_repo cfg id
            (map (exported T) ls)
            (r, fault_free t)
          ≡ (r', fault_free t'))
        × Counts (length ls) r r'
        × Restores ls T.shares t t'
  unfolding do_import tally export_link
  do_import-Restores id T [] r t ready = (
    r,
    t,
    refl,
    (omega arith, refl, refl),
    record { contents = λ name. refl; shares = λ name e. refl },
  )
  do_import-Restores id T (l ∷ ls) r t ready =
      let (t1, e, a) =
        import_link-creates cfg id l (shares_of l.id T) t ready.portable.0 ready.free.0 in
      let (r', t', e', (n, updated, skipped), ih) =
        do_import-Restores id T ls (tally was_created (trim_space l.name) r) t1
          (step-Ready l ls (shares_of l.id T) t t1 ready a) in
      (
        r',
        t',
        ap
              (λ o.
                do_import sql_repo cfg id (map (exported T) ls)
                  (tally o.0 (trim_space l.name) r, o.1))
              e
            ∙ e',
        (omega arith, updated, skipped),
        step-Restores T l ls t t1 t' ready a ih,
      )
