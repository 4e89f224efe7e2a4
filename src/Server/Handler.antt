-- ===== src/Server/Handler.antt =====
-- How the handlers of internal/server run: requests, responses and early returns.
use golink_url_shortener.Base.{if◌then◌else◌, Text, codes, ℕ, Bool, Option, none, some, List}
use golink_url_shortener.Base.{Result, ok, err}
use golink_url_shortener.Db.Models.{Link}
use golink_url_shortener.Db.Sql.{DbError, not_found}
use golink_url_shortener.Db.Repo.{Call}
use golink_url_shortener.Links.Validate.{NameError, TargetError}
use golink_url_shortener.Links.Domains.{DomainError}

-- internal/auth/identity.go
pub record Identity : Type 0 where
  pub email : Text
  pub display_name : Text
  pub avatar_url : Text
  pub groups : List Text
  pub is_admin : Bool
  pub source : Text
  pub api_key_read_only : Bool

-- LinkResponse of json.go.
pub record LinkResponse : Type 0 where
  pub name : Text
  pub target : Text
  pub owner_email : Text
  pub link_type : Text
  pub alias_target : Text
  pub require_auth : Bool
  pub created_at : ℕ
  pub use_count : ℕ

-- importResult of import.go, its messages by the names of the links they are about.
pub record ImportResult : Type 0 where
  pub created : ℕ
  pub updated : ℕ
  pub skipped : ℕ
  pub errors : List Text

-- APIKeyResponse of json.go, with times as numbers.
pub record ApiKeyResponse : Type 0 where
  pub id : ℕ
  pub name : Text
  pub created_by : Text
  pub created_at : ℕ
  pub last_used : Option ℕ
  pub read_only : Bool

-- What an error response says. Its wording is left out where it has no consequence.
pub data Problem : Type 0 where
  message : Text → Problem
  bad_name : NameError → Problem
  bad_target : TargetError → Problem
  bad_domain : DomainError → Problem
  bad_link_type : Text → Problem
  -- resolveAliasTarget
  self_alias circular_alias lookup_failed : Problem
  no_alias_target no_canonical : Text → Problem
  alias_limit : ℕ → Problem
  failed : DbError → Problem

pub data Body : Type 0 where
  link_body : LinkResponse → Body
  links_body : List LinkResponse → (total page total_pages : ℕ) → Body
  reassigned_body : ℕ → Body
  -- a new key, with its raw text
  key_body : ApiKeyResponse → Text → Body
  keys_body : List ApiKeyResponse → Body
  import_body : ImportResult → Body

-- A response by its status: a redirect and its location, a JSON value, an error, no content.
-- `login` is the redirect to the login page, `page` a rendered HTML page for a link.
pub data Response : Type 0 where
  redirect : ℕ → Text → Response
  login : Response
  json : ℕ → Body → Response
  failure : ℕ → Problem → Response
  no_content : Response
  page : Link → Response
  page_error : Link → Problem → Response
  not_found_page : Text → Response
  advanced_link_error : Text → Response

-- A handler over a state: it goes on with a value, or has written its response (`err`).
abbrev pub Handler : Type 0 → Type 0 → Type 0
Handler S A = S → Result Response A × S

abbrev pub then_result :
    {S A B : Type 0} → (A → Handler S B) → Result Response A × S → Result Response B × S
then_result f (ok a, s) = f a s
then_result f (err r, s) = (err r, s)

infixl 5 ◌>>=◌ ◌>>◌
abbrev pub ◌>>=◌ : {S A B : Type 0} → Handler S A → (A → Handler S B) → Handler S B
◌>>=◌ m f s = then_result f (m s)

abbrev pub ◌>>◌ : {S B : Type 0} → Handler S (Unit {0}) → Handler S B → Handler S B
m >> k = m >>= λ _. k

abbrev pub return : {S A : Type 0} → A → Handler S A
return a s = (ok a, s)

abbrev pub reply : {S A : Type 0} → Response → Handler S A
reply r s = (err r, s)

-- if cond { write; return }
abbrev pub reply_if : {S : Type 0} → Bool → Response → Handler S (Unit {0})
reply_if b r s = if b then (err r, s) else (ok tt, s)

-- if err := check(); err != nil { write; return }
abbrev pub refuse_on : {S E : Type 0} → Option E → (E → Response) → Handler S (Unit {0})
refuse_on none f s = (ok tt, s)
refuse_on (some e) f s = (err (f e), s)

abbrev pub some_or_reply : {S A : Type 0} → Response → Option A → Handler S A
some_or_reply response none s = (err response, s)
some_or_reply response (some a) s = (ok a, s)

abbrev pub or_reply : {S A E : Type 0} → (E → Response) → Result E A → Handler S A
or_reply f (ok a) s = (ok a, s)
or_reply f (err e) s = (err (f e), s)

-- A call of the repository, whose error is turned into a response.
abbrev pub called :
    {S A : Type 0} → (DbError → Response) → Result DbError A × S → Result Response A × S
called f (ok a, s) = (ok a, s)
called f (err e, s) = (err (f e), s)

abbrev pub call : {S A : Type 0} → Call S A → (DbError → Response) → Handler S A
call op f s = called f (op s)

-- errors.Is(err, db.ErrNotFound)
abbrev pub on_not_found : Response → Response → DbError → Response
on_not_found missing other not_found = missing
on_not_found missing other e = other

abbrev pub internal_error : Response
internal_error = failure 500 (message (codes "internal server error"))

abbrev pub forbidden : Response
forbidden = failure 403 (message (codes "forbidden"))

-- The JSON body of a request, as decodeJSONBody reads it.
pub data Request (A : Type 0) : Type 0 where
  too_large bad_json : Request A
  decoded : A → Request A

abbrev pub decode_json_body : {S A : Type 0} → Request A → Handler S A
decode_json_body too_large = reply (failure 413 (message (codes "request body too large")))
decode_json_body bad_json = reply (failure 400 (message (codes "invalid JSON")))
decode_json_body (decoded a) = return a
