-- ===== src/Db/LinkRepo.antt =====
-- SQLLinkRepo of internal/db/link_repo.go: the operations on single links and on shares.
use golink_url_shortener.Base.{
  ltb, ◌==◌, if◌then◌else◌, any, find, keep, count, Text, text_eq, to_lower, ℕ, ◌+◌, Bool, not,
  ◌&&◌, ◌||◌, Option, none, some, List, [], ◌∷◌, map,
}
use golink_url_shortener.Base.{Result, ok, err}
use golink_url_shortener.Db.Models.{Link, LinkType, alias, LinkShare}
use golink_url_shortener.Db.Sql.{
  DbError, not_found, alias_limit_exceeded, unique_violation, foreign_key_violation, no_rows,
  Statement, Sql, ◌>>=◌, ◌>>◌, return, throw, exec, transaction,
}
use golink_url_shortener.Db.Rows.{
  has_id, has_name, has_alias_target, has_owner, update_where, name_taken,
}

-- INSERT INTO links ... RETURNING
unfoldable pub insert_link : Text → Text → Text → LinkType → Text → Bool → Statement Link
insert_link name target owner link_type alias_target require_auth t =
    let row : Link = record {
      id = t.next_link_id;
      name = name;
      name_lower = to_lower name;
      target = target;
      owner_email = owner;
      link_type = link_type;
      alias_target = alias_target;
      require_auth = require_auth;
      created_at = t.now;
      last_used_at = none;
      use_count = 0;
    } in
    if any (has_name (to_lower name)) t.links
    then (err unique_violation, t)
    else (ok row, record t { links = row ∷ t.links; next_link_id = t.next_link_id + 1 })

unfoldable pub create : Text → Text → Text → LinkType → Text → Bool → Sql Link
create name target owner link_type alias_target require_auth =
    exec (insert_link name target owner link_type alias_target require_auth)

abbrev pub found_or : DbError → Option Link → Result DbError Link
found_or e none = err e
found_or e (some l) = ok l

unfoldable pub get_by_name : Text → Sql Link
get_by_name name_lower = exec (λ t. (found_or not_found (find (has_name name_lower) t.links), t))

-- UPDATE links SET ... WHERE id = ? RETURNING, with a new name. `missing` is the error for no row.
unfoldable pub rename_link : DbError → ℕ → Text → (Link → Link) → Statement Link
rename_link missing id name_lower change t = elim (find (has_id id) t.links) [
  | none ↦ (err missing, t)
  | some l ↦
      if name_taken id name_lower t.links
      then (err unique_violation, t)
      else (ok (change l), record t { links = update_where (has_id id) change t.links })
]

-- The SET clause of Update.
unfoldable pub updated_link : Text → Text → LinkType → Bool → Link → Link
updated_link name target link_type require_auth l = record l {
  name = name;
  name_lower = to_lower name;
  target = target;
  link_type = link_type;
  alias_target = [];
  require_auth = require_auth;
}

unfoldable pub update : ℕ → Text → Text → LinkType → Bool → Sql Link
update id name target link_type require_auth =
    exec
      (rename_link not_found id (to_lower name) (updated_link name target link_type require_auth))

-- The SET clause of the last statement of SetAlias.
unfoldable pub aliased_link : Text → Text → Bool → Link → Link
aliased_link name alias_target require_auth l = record l {
  name = name;
  name_lower = to_lower name;
  target = [];
  link_type = alias;
  alias_target = alias_target;
  require_auth = require_auth;
}

abbrev pub reparented : Text → Link → Link
reparented target l = record l { alias_target = target }

abbrev pub name_or : DbError → Option Link → Result DbError Text
name_or e none = err e
name_or e (some l) = ok l.name_lower

-- SELECT name_lower FROM links WHERE id = ?
unfoldable pub name_of : ℕ → Sql Text
name_of id = exec (λ t. (name_or not_found (find (has_id id) t.links), t))

-- SELECT COUNT(*) FROM links WHERE alias_target = ?
unfoldable pub count_aliases : Text → Sql ℕ
count_aliases name = exec (λ t. (ok (count (has_alias_target name) t.links), t))

-- UPDATE links SET alias_target = ? WHERE alias_target = ?
unfoldable pub reparent_links : Text → Text → Statement (Unit {0})
reparent_links from to t =
    (ok tt, record t { links = update_where (has_alias_target from) (reparented to) t.links })

unfoldable pub reparent : Text → Text → Sql (Unit {0})
reparent from to = exec (reparent_links from to)

unfoldable pub convert : ℕ → Text → Text → Bool → Sql Link
convert id name alias_target require_auth =
    exec (rename_link no_rows id (to_lower name) (aliased_link name alias_target require_auth))

-- The limit, the reparenting and the conversion, once the aliases are counted.
unfoldable pub reparent_and_convert : Text → ℕ → ℕ → ℕ → Text → Text → Bool → ℕ → Sql Link
reparent_and_convert current target_count own_count id name target require_auth max_aliases =
    if ltb max_aliases (target_count + own_count + 1)
    then throw alias_limit_exceeded
    else (if ltb 0 own_count then reparent current target else return tt)
      >> convert id name target require_auth

-- The statements of the transaction of SetAlias.
unfoldable pub set_alias_body : ℕ → Text → Text → Bool → ℕ → Sql Link
set_alias_body id name target require_auth max_aliases = do
  current ← name_of id
  target_count ← count_aliases target
  own_count ← count_aliases current
  reparent_and_convert current target_count own_count id name target require_auth max_aliases

unfoldable pub set_alias : ℕ → Text → Text → Bool → ℕ → Sql Link
set_alias id name target require_auth max_aliases =
    transaction (set_alias_body id name target require_auth max_aliases)

-- DELETE FROM links WHERE id = ?, with the cascade to link_shares where it is enforced.
unfoldable pub delete_link : ℕ → Statement (Unit {0})
delete_link id t =
    if any (has_id id) t.links
    then (
      ok tt,
      record t {
        links = keep (λ l. not (has_id id l)) t.links;
        shares = if t.foreign_keys then keep (λ s. not (s.link_id == id)) t.shares else t.shares;
      },
    )
    else (err not_found, t)

unfoldable pub delete : ℕ → Sql (Unit {0})
delete id = exec (delete_link id)

abbrev pub owned_by : Text → Link → Link
owned_by email l = record l { owner_email = email }

-- UPDATE links SET owner_email = ? WHERE id = ? RETURNING
unfoldable pub change_owner : ℕ → Text → Statement Link
change_owner id email t = elim (find (has_id id) t.links) [
  | none ↦ (err not_found, t)
  | some l ↦ (
    ok (owned_by email l),
    record t { links = update_where (has_id id) (owned_by email) t.links },
  )
]

unfoldable pub transfer_ownership : ℕ → Text → Sql Link
transfer_ownership id new_owner = exec (change_owner id new_owner)

unfoldable pub reassign_links : Text → Text → Sql ℕ
reassign_links from to = exec (λ t. (
  ok (count (has_owner from) t.links),
  record t { links = update_where (has_owner from) (owned_by to) t.links },
))

-- UPDATE links SET use_count = use_count + delta, last_used_at = CURRENT_TIMESTAMP WHERE id = ?
unfoldable pub add_uses : ℕ → ℕ → Sql (Unit {0})
add_uses delta id = exec (λ t. (
  ok tt,
  record t {
    links =
        update_where (has_id id)
          (λ l. record l { use_count = l.use_count + delta; last_used_at = some t.now }) t.links;
  },
))

unfoldable pub increment_use_count : ℕ → Sql (Unit {0})
increment_use_count id = add_uses 1 id

unfoldable pub get_shares : ℕ → Sql (List Text)
get_shares link_id =
    exec (λ t. (ok (map (λ s. s.shared_with_email) (keep (λ s. s.link_id == link_id) t.shares)), t))

abbrev pub is_share : ℕ → Text → LinkShare → Bool
is_share link_id email s = s.link_id == link_id && text_eq s.shared_with_email email

-- INSERT INTO link_shares ... ON CONFLICT DO NOTHING
unfoldable pub insert_share : ℕ → Text → Statement (Unit {0})
insert_share link_id email t =
    if any (is_share link_id email) t.shares
    then (ok tt, t)
    else if not t.foreign_keys || any (has_id link_id) t.links
    then (
      ok tt,
      record t { shares = record { link_id = link_id; shared_with_email = email } ∷ t.shares },
    )
    else (err foreign_key_violation, t)

unfoldable pub add_share : ℕ → Text → Sql (Unit {0})
add_share link_id email = exec (insert_share link_id email)

unfoldable pub remove_share : ℕ → Text → Sql (Unit {0})
remove_share link_id email =
    exec (λ t. (ok tt, record t { shares = keep (λ s. not (is_share link_id email s)) t.shares }))
