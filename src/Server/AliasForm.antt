-- ===== src/Server/AliasForm.antt =====
-- The form of internal/server/ui.go that creates an alias of a link.
use golink_url_shortener.Base.{
  leb, Bool-cases, Option-cases, any, find, count, Text, codes, to_lower, trim_space, ◌+◌, ◌<◌, ◌≡◌,
  refl, sym, ap, ◌∙◌, ◌⊎◌, inl, inr, Bool, true, false, Option, none, some, List, [], ◌∷◌, arith,
}
use golink_url_shortener.Base.{Result, ok, err}
use mathlib.Core.Path.{subst}
use golink_url_shortener.Config.{Config}
use golink_url_shortener.Db.Models.{Link, alias, is_alias}
use golink_url_shortener.Db.Sql.{Db, DbError, Tables, Statement, exec}
use golink_url_shortener.Db.Inversion.{exec-ok}
use golink_url_shortener.Db.Rows.{has_name, has_alias_target}
use golink_url_shortener.Db.LinkRepo
use golink_url_shortener.Db.Repo.{sql_repo}
use golink_url_shortener.Links.Domains.{UrlPackage}
use golink_url_shortener.Links.Validate.{validate_name}
use golink_url_shortener.Server.Handler.{
  alias_limit, bad_name, Identity, Handler, ◌>>=◌, ◌>>◌, then_result, reply, reply_if, refuse_on,
  call, called, internal_error, failure, message,
}
use golink_url_shortener.Server.Access.{lookup}
use golink_url_shortener.Server.Authorised.{Reads-bind, lookup-Reads, called-Reads, read_same}
use golink_url_shortener.Server.Ui.{
  Csrf, validate_csrf, handle_create_alias, page_not_found, alias_create_failure, details_of,
}

exec-tables :
    {A : Type 0} (st : Statement A) (db : Db)
    → ((exec st db).1.tables ≡ db.tables) ⊎ ((exec st db).1.tables ≡ (st db.tables).1)
unfolding exec
exec-tables st db = go db.faults
  where
    go :
        (fs : List Bool)
        → ((exec st (record db { faults = fs })).1.tables ≡ db.tables)
          ⊎ ((exec st (record db { faults = fs })).1.tables ≡ (st db.tables).1)
    go [] = inr refl
    go (true ∷ fs) = inl refl
    go (false ∷ fs) = inr refl

-- The tables with an alias of a name, which are otherwise the same: its number and its time are the
-- next ones, and it has no uses yet.
abbrev pub with_alias : Text → Text → Text → Tables → Tables
with_alias given owner name t = record t {
  links =
      record {
        id = t.next_link_id;
        name = given;
        name_lower = to_lower given;
        target = [];
        owner_email = owner;
        link_type = alias;
        alias_target = name;
        require_auth = false;
        created_at = t.now;
        last_used_at = none;
        use_count = 0;
      }
      ∷ t.links;
  next_link_id = t.next_link_id + 1;
}

inserted_alias :
    (given owner name : Text) (t : Tables)
    → ((LinkRepo.insert_link given [] owner alias name false t).1 ≡ t)
      ⊎ ((any (has_name (to_lower given)) t.links ≡ false)
          × ((LinkRepo.insert_link given [] owner alias name false t).1
              ≡ with_alias given owner name t))
unfolding LinkRepo.insert_link
inserted_alias given owner name t = elim (Bool-cases (any (has_name (to_lower given)) t.links)) [
  | inl taken ↦ inl (rw taken refl)
  | inr free ↦ inr (free, rw free refl)
]

-- One more alias of the name, under a name that was free, and nothing else.
abbrev pub Grown : Text → Text → Text → Tables → Tables → Type 0
Grown given owner name t t' =
    (any (has_name (to_lower given)) t.links ≡ false) × (t' ≡ with_alias given owner name t)

created_alias :
    (given owner name : Text) (db : Db)
    → ((LinkRepo.create given [] owner alias name false db).1.tables ≡ db.tables)
      ⊎ Grown given owner name db.tables
          (LinkRepo.create given [] owner alias name false db).1.tables
unfolding LinkRepo.create
created_alias given owner name db =
    elim (exec-tables (LinkRepo.insert_link given [] owner alias name false) db) [
      | inl same ↦ inl same
      | inr done ↦ elim (inserted_alias given owner name db.tables) [
        | inl same ↦ inl (done ∙ same)
        | inr (free, more) ↦ inr (free, done ∙ more)
      ]
    ]

ok_eq : {A : Type 0} {a b : A} → ◌≡◌ {A = Result DbError A} (ok a) (ok b) → a ≡ b
ok_eq e = cc

module _ (cfg : Config) (name owner given : Text) where
  create_stage : Handler Db (Unit {0})
  create_stage =
      call (sql_repo.create given [] owner alias name false) alias_create_failure >>= λ created.
      reply (details_of name)

  create_stage-tables :
      (db : Db) → (create_stage db).1 ≡ (LinkRepo.create given [] owner alias name false db).1
  unfolding create_stage
  create_stage-tables db = go (LinkRepo.create given [] owner alias name false db)
    where
      go :
          (r : Result DbError Link × Db)
          → (then_result
              (λ (l : Link). reply {A = Unit {0}} (details_of name))
              (called alias_create_failure r)).1
            ≡ r.1
      go (ok l, db') = refl
      go (err e, db') = refl

  count_stage : Handler Db (Unit {0})
  count_stage = call (sql_repo.count_aliases name) (λ e. internal_error) >>= λ n.
      (reply_if (leb cfg.max_aliases_per_link n)
          (failure 422 (alias_limit cfg.max_aliases_per_link))
        >> create_stage)

  -- Below the limit, or nothing.
  abbrev Bounded : Db → Tables → Type 0
  Bounded db t' =
      (t' ≡ db.tables)
      ⊎ (Grown given owner name db.tables t'
          × (count (has_alias_target name) db.tables.links < cfg.max_aliases_per_link))

  count_stage-Bounded : (db : Db) → Bounded db (count_stage db).1.tables
  unfolding count_stage LinkRepo.count_aliases
  count_stage-Bounded db =
      elim (Reads-bind (λ n. n ≡ count (has_alias_target name) db.tables.links)
        (call (sql_repo.count_aliases name) (λ e. internal_error)) _ db
        (called-Reads (λ e. internal_error) db _ (LinkRepo.count_aliases name db) (read_same _ db)
          (λ n got.
            sym
              (ok_eq (exec-ok (λ t. (ok (count (has_alias_target name) t.links), t)) db got).0)))) [
                | inl same ↦ inl same
                | inr (n, db', same, counted, e) ↦
                    elim (Bool-cases (leb cfg.max_aliases_per_link n)) [
                      | inl full ↦ inl (ap (λ (d : Db). d.tables) e ∙ rw full same)
                      | inr room ↦
                          let final : (count_stage db).1.tables
                              ≡ (LinkRepo.create given [] owner alias name false db').1.tables =
                            ap (λ (d : Db). d.tables) e
                            ∙ rw room (ap (λ (d : Db). d.tables) (create_stage-tables db')) in
                          elim (created_alias given owner name db') [
                            | inl none_new ↦ inl (final ∙ none_new ∙ same)
                            | inr grown ↦ inr (
                              subst (λ t. Grown given owner name t (count_stage db).1.tables) same
                                  (grown.0, final ∙ grown.1),
                              ground (arith, counted),
                            )
                          ]
                    ]
              ]

  name_stage : Handler Db (Unit {0})
  name_stage = refuse_on (validate_name given) (λ e. failure 400 (bad_name e)) >> count_stage

  name_stage-Bounded :
      (db : Db)
      → ((name_stage db).1.tables ≡ db.tables)
        ⊎ ((validate_name given ≡ none)
            × Grown given owner name db.tables (name_stage db).1.tables
            × (count (has_alias_target name) db.tables.links < cfg.max_aliases_per_link))
  unfolding name_stage
  name_stage-Bounded db = elim (Option-cases (validate_name given)) [
    | inl accepted ↦ rw accepted (elim (count_stage-Bounded db) [
      | inl same ↦ inl same
      | inr (grown, room) ↦ inr (refl, grown, room)
    ])
    | inr (e, refused) ↦ inl (rw refused refl)
  ]

-- The form of a signed-in user has added one alias of a link that is none: the name was valid and
-- free, and fewer links than the limit had aliased the link.
pub record AddsAlias (cfg : Config) (name given : Text) (csrf : Csrf) (user : Option Identity)
    (t t' : Tables) : Type 0 where
  pub valid : validate_csrf csrf ≡ true
  pub canonical : (l : Link) × (find (has_name name) t.links ≡ some l) × (is_alias l ≡ false)
  pub valid_name : validate_name given ≡ none
  pub free : any (has_name (to_lower given)) t.links ≡ false
  pub room : count (has_alias_target name) t.links < cfg.max_aliases_per_link
  pub added : (id : Identity) × (user ≡ some id) × (t' ≡ with_alias given id.email name t)

module _ (url : UrlPackage) (cfg : Config) where
  -- The form that creates an alias changes the tables only by adding one link: an alias of the link of
  -- the page that belongs to the user who is signed in, under the name of the form, which is valid and
  -- was free. Its token is valid, the link is no alias, and fewer links than the limit aliased it.
  pub handle_create_alias-AddsAlias :
      (param : Text) (user : Option Identity) (csrf : Csrf) (given : Text) (db : Db)
      → ((handle_create_alias sql_repo url cfg param user csrf given db).1.tables ≡ db.tables)
        ⊎ AddsAlias cfg
            (to_lower param)
            (trim_space given)
            csrf
            user
            db.tables
            (handle_create_alias sql_repo url cfg param user csrf given db).1.tables
  unfolding handle_create_alias name_stage count_stage create_stage
  handle_create_alias-AddsAlias param none csrf given db = elim (Bool-cases (validate_csrf csrf)) [
    | inr forged ↦ inl (rw forged refl)
    | inl valid ↦ inl (rw valid refl)
  ]
  handle_create_alias-AddsAlias param (some id) csrf given db =
      elim (Bool-cases (validate_csrf csrf)) [
        | inr forged ↦ inl (rw forged refl)
        | inl valid ↦
            rw valid
              (elim (Reads-bind _ (lookup sql_repo (to_lower param) page_not_found) (link_stage id)
                db (lookup-Reads (to_lower param) page_not_found db)) [
                  | inl same ↦ inl same
                  | inr (l, db', same, found, e) ↦ elim (Bool-cases (is_alias l)) [
                    | inl is ↦ inl (ap (λ (d : Db). d.tables) e ∙ rw is same)
                    | inr isnt ↦
                        added l db' same found (ap (λ (d : Db). d.tables) e ∙ rw isnt refl) isnt
                          valid
                  ]
                ])
      ]
    where
      link_stage : Identity → Link → Handler Db (Unit {0})
      link_stage id l =
          reply_if (is_alias l) (failure 400 (message (codes "cannot create an alias of an alias")))
          >> name_stage cfg (to_lower param) id.email (trim_space given)

      added :
          (l : Link) (db' : Db) {t' : Tables}
          → db'.tables ≡ db.tables
          → find (has_name (to_lower param)) db.tables.links ≡ some l
          → t' ≡ (name_stage cfg (to_lower param) id.email (trim_space given) db').1.tables
          → is_alias l ≡ false
          → validate_csrf csrf ≡ true
          → (t' ≡ db.tables)
            ⊎ AddsAlias cfg (to_lower param) (trim_space given) csrf (some id) db.tables t'
      added l db' same found final isnt valid =
          elim (name_stage-Bounded cfg (to_lower param) id.email (trim_space given) db') [
            | inl none_new ↦ inl (final ∙ none_new ∙ same)
            | inr (named, (free, row), room) ↦ inr (record {
              valid = valid;
              canonical = (l, found, isnt);
              valid_name = named;
              free =
                  subst
                    (λ (t : Tables). any (has_name (to_lower (trim_space given))) t.links ≡ false)
                    same free;
              room =
                  subst
                    (λ (t : Tables).
                      count (has_alias_target (to_lower param)) t.links < cfg.max_aliases_per_link)
                    same room;
              added = (
                id,
                refl,
                final ∙ row ∙ ap (with_alias (trim_space given) id.email (to_lower param)) same,
              );
            })
          ]
