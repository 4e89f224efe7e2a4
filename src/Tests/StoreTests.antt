-- ===== src/Tests/StoreTests.antt =====
-- Users and settings at concrete inputs.
use golink_url_shortener.Base.{
  if◌then◌else◌, find, count, Text, codes, text_eq, ◌≤◌, ◌≡◌, refl, Option, none, some, [], arith,
}
use golink_url_shortener.Config.{Config, apply_defaults}
use golink_url_shortener.Config.Load
use golink_url_shortener.Config.Load.{ConfigFile}
use golink_url_shortener.Db.Sql.{DbError, exec}
use golink_url_shortener.Db.UserRepo
use golink_url_shortener.Db.UserRepo.{
  has_email, user_row, user_or, upsert, get, upsert_user, upsert_row,
}
use golink_url_shortener.Tests.Fixtures.{db, cfg}

upsert-get_example :
    (user_row (codes "a@b") (codes "A") [] 20 ≡ user_row (codes "a@b") (codes "A") [] 20)
    × ((get (codes "a@b") (upsert (codes "a@b") (codes "A") [] db).1).0
        ≡ user_or DbError.not_found (
            if text_eq (codes "a@b") (codes "a@b")
            then some (user_row (codes "a@b") (codes "A") [] 20)
            else find (has_email (codes "a@b")) db.tables.users))
    × (count (has_email (codes "a@b")) (upsert (codes "a@b") (codes "A") [] db).1.tables.users ≤ 1)
unfolding upsert upsert_user exec
upsert-get_example =
    UserRepo.upsert-get (codes "a@b") (codes "A") [] (codes "a@b") db
      (user_row (codes "a@b") (codes "A") [] 20) refl refl (λ j. omega arith)

-- A file that names the environment variable of its secret.
abbrev file : Config
file = record cfg {
  jwt_secret_env_var = codes "SECRET";
  favicon_path = codes "/f.ico";
  quick_link_length = 7;
  links_per_page = 50;
}

abbrev lookup_env : Text → Option Text
lookup_env name =
    if text_eq name (codes "SECRET") then some (codes "0123456789abcdef0123456789abcdef") else none

abbrev loaded : Config
loaded = record (apply_defaults file) {
  cache_ttl_duration = 1;
  jwt_secret = codes "0123456789abcdef0123456789abcdef";
}
