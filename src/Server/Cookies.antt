-- ===== src/Server/Cookies.antt =====
-- internal/auth/oidc.go: the cookies of a login, and the packages that it calls.
use golink_url_shortener.Base.{
  Text, codes, ℕ, ◌<◌, ◌≡◌, Bool, true, false, Option, none, some, List, [], ◌∷◌, ◌++◌,
}
use golink_url_shortener.Base.{ok, err}
use golink_url_shortener.Server.Handler.{message, Response, failure, Handler}

-- The Max-Age of a cookie: seconds, or -1, which deletes it.
pub data MaxAge : Type 0 where
  seconds : ℕ → MaxAge
  deleted : MaxAge

pub record Cookie : Type 0 where
  pub name : Text
  pub value : Text
  pub path : Text
  pub max_age : MaxAge
  pub http_only : Bool
  pub secure : Bool
  pub same_site_lax : Bool

abbrev pub session_cookie_name : Text
session_cookie_name = codes "golink_session"

abbrev pub state_cookie_name : Text
state_cookie_name = codes "golink_oauth_state"

abbrev pub oidc_verifier_cookie : Text
oidc_verifier_cookie = codes "golink_pkce_verifier"

abbrev pub session_duration : ℕ
session_duration = 86400

-- The payload of the session cookie, with times in seconds.
pub record SessionClaims : Type 0 where
  pub expires_at : ℕ
  pub issued_at : ℕ
  pub email : Text
  pub display_name : Text
  pub avatar_url : Text
  pub groups : List Text

-- The standard claims of an ID token.
pub record Claims : Type 0 where
  pub email : Text
  pub name : Text
  pub picture : Text

-- golang-jwt: the signing methods, SignedString with HS256, and ParseWithClaims from a key function
-- at a time, `none` for its errors and for a token that is not valid.
pub record JwtPackage : Type 1 where
  pub Method : Type 0
  pub hs256 : Method
  pub is_hmac : Method → Bool
  pub sign : Text → SessionClaims → Option Text
  pub parse_with_claims : (Method → Option Text) → ℕ → Text → Option SessionClaims

-- What the program relies on: HS256 is an HMAC method, and what was signed with a key is accepted
-- with this key until it expires.
pub record IsJwt (jwt : JwtPackage) : Type 0 where
  pub hs256_hmac : jwt.is_hmac jwt.hs256 ≡ true
  pub parse-sign :
      (key : Text) (claims : SessionClaims) (token : Text) (keys : jwt.Method → Option Text)
      (now : ℕ)
      → jwt.sign key claims ≡ some token
      → keys jwt.hs256 ≡ some key
      → now < claims.expires_at
      → jwt.parse_with_claims keys now token ≡ some claims

-- go-oidc, oauth2, the JSON decoder and SHA-256: the provider's answers to this process.
pub record OidcPackage : Type 1 where
  pub Token : Type 0
  pub IdToken : Type 0
  pub Json : Type 0
  pub auth_code_url : Text → Option Text → Text
  pub exchange : Text → Option Text → Option Token
  pub id_token_of : Token → Option Text
  pub verify : Text → Option IdToken
  pub claims : IdToken → Option Claims
  pub raw_claim : IdToken → Text → Option Json
  pub json_bool : Json → Option Bool
  pub json_text : Json → Option Text
  pub json_texts : Json → List Text
  pub challenge_of : Text → Text

-- A request to the callback: its cookies and its query.
pub record CallbackRequest : Type 0 where
  pub state_cookie : Option Text
  pub verifier_cookie : Option Text
  pub state : Text
  pub code : Text

abbrev pub bad_state : Response
bad_state = failure 400 (message (codes "invalid state"))

-- The state of a handler holds the cookies that it has set.
abbrev pub CookieHandler : Type 0 → Type 0
CookieHandler A = Handler (List Cookie) A

abbrev pub set_cookie : Cookie → CookieHandler (Unit {0})
set_cookie c cookies = (ok tt, cookies ++ c ∷ [])

abbrev pub or_fail : {A : Type 0} → Option A → Response → CookieHandler A
or_fail none r cookies = (err r, cookies)
or_fail (some a) r cookies = (ok a, cookies)

unfoldable pub state_cookie : Text → Cookie
state_cookie state = record {
  name = state_cookie_name;
  value = state;
  path = codes "/";
  max_age = seconds 300;
  http_only = true;
  secure = true;
  same_site_lax = true;
}

unfoldable pub verifier_cookie : Text → Cookie
verifier_cookie verifier = record {
  name = oidc_verifier_cookie;
  value = verifier;
  path = codes "/auth/";
  max_age = seconds 600;
  http_only = true;
  secure = true;
  same_site_lax = true;
}

-- A cookie that makes the browser forget the one of its name.
unfoldable pub cleared : Text → Text → Cookie
cleared name path = record {
  name = name;
  value = [];
  path = path;
  max_age = deleted;
  http_only = false;
  secure = false;
  same_site_lax = false;
}

unfoldable pub session_cookie : Text → Cookie
session_cookie signed = record {
  name = session_cookie_name;
  value = signed;
  path = codes "/";
  max_age = seconds session_duration;
  http_only = true;
  secure = true;
  same_site_lax = true;
}
