-- ===== src/Db/Rows.antt =====
-- Selecting and changing rows.
use golink_url_shortener.Base.{
  ◌==◌, if◌then◌else◌, any, Text, text_eq, ℕ, Bool, not, ◌&&◌, List, [], ◌∷◌,
}
use golink_url_shortener.Db.Models.{Link}

-- WHERE id = ?
abbrev pub has_id : ℕ → Link → Bool
has_id id l = l.id == id

-- WHERE name_lower = ?
abbrev pub has_name : Text → Link → Bool
has_name name l = text_eq l.name_lower name

-- WHERE alias_target = ?
abbrev pub has_alias_target : Text → Link → Bool
has_alias_target name l = text_eq l.alias_target name

-- WHERE owner_email = ?
abbrev pub has_owner : Text → Link → Bool
has_owner email l = text_eq l.owner_email email

-- UPDATE links SET ... WHERE ...
unfoldable pub update_where : (Link → Bool) → (Link → Link) → List Link → List Link
update_where p f [] = []
update_where p f (l ∷ ls) = (if p l then f l else l) ∷ update_where p f ls

-- The unique index on name_lower forbids a row to take a name that another row has.
unfoldable pub name_taken : ℕ → Text → List Link → Bool
name_taken id name ls = any (λ l. not (has_id id l) && has_name name l) ls
