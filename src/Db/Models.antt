-- ===== src/Db/Models.antt =====
-- internal/db/models.go. A time is a number of seconds; sql.NullTime is an `Option`.
use golink_url_shortener.Base.{Text, codes, ℕ, Bool, true, false, Option, List, [], ◌∷◌}

pub data LinkType : Type 0 where
  simple advanced alias : LinkType

pub record Link : Type 0 where
  pub id : ℕ
  pub name : Text
  pub name_lower : Text
  pub target : Text
  pub owner_email : Text
  pub link_type : LinkType
  pub alias_target : Text
  pub require_auth : Bool
  pub created_at : ℕ
  pub last_used_at : Option ℕ
  pub use_count : ℕ

unfoldable pub is_simple : Link → Bool
is_simple l = elim l.link_type [ simple ↦ true | _ ↦ false ]

unfoldable pub is_advanced : Link → Bool
is_advanced l = elim l.link_type [ advanced ↦ true | _ ↦ false ]

unfoldable pub is_alias : Link → Bool
is_alias l = elim l.link_type [ alias ↦ true | _ ↦ false ]

pub record LinkShare : Type 0 where
  pub link_id : ℕ
  pub shared_with_email : Text

pub record User : Type 0 where
  pub email : Text
  pub display_name : Text
  pub avatar_url : Text
  pub last_seen_at : ℕ

pub record ApiKey : Type 0 where
  pub id : ℕ
  pub name : Text
  pub key_hash : Text
  pub created_by : Text
  pub created_at : ℕ
  pub last_used_at : Option ℕ
  pub read_only : Bool

abbrev pub SortField : Type 0
SortField = Text

abbrev pub SortDir : Type 0
SortDir = Text

abbrev pub sort_by_name : SortField
sort_by_name = codes "name_lower"

abbrev pub sort_by_created : SortField
sort_by_created = codes "created_at"

abbrev pub sort_by_last_used : SortField
sort_by_last_used = codes "last_used_at"

abbrev pub sort_by_use_count : SortField
sort_by_use_count = codes "use_count"

abbrev pub sort_by_target : SortField
sort_by_target = codes "target"

abbrev pub sort_by_owner : SortField
sort_by_owner = codes "owner_email"

abbrev pub sort_asc : SortDir
sort_asc = codes "ASC"

abbrev pub sort_desc : SortDir
sort_desc = codes "DESC"

abbrev pub valid_sort_fields : List SortField
valid_sort_fields =
    sort_by_name ∷ sort_by_created ∷ sort_by_last_used ∷ sort_by_use_count ∷ sort_by_target
    ∷ sort_by_owner ∷ []

abbrev pub valid_sort_dirs : List SortDir
valid_sort_dirs = sort_asc ∷ sort_desc ∷ []
