-- ===== src/Tests/LoginTests.antt =====
-- Logins and sessions at concrete inputs.
use golink_url_shortener.Base.{
  if◌then◌else◌, Text, codes, text_eq, ◌≡◌, refl, ◌⊎◌, inl, inr, Bool, true, none, some, [], ◌∷◌,
  ◌++◌, arith,
}
use golink_url_shortener.Server.Login.{handle_callback, session_claims, groups_of, oidc_middleware}
use golink_url_shortener.Server.Cookies.{OidcPackage, Claims, CallbackRequest}
use golink_url_shortener.Server.Session
use golink_url_shortener.Server.Session.{LogsIn, Refuses, session_of}
use golink_url_shortener.Tests.Fixtures.{cfg, net}
use golink_url_shortener.Tests.JwtExample.{jwt, jwt-IsJwt}

-- A provider that answers to one code, and says yes or no.
abbrev oidc : OidcPackage
oidc = record {
  Token = Text;
  IdToken = Text;
  Json = Bool;
  auth_code_url = λ state challenge. codes "https://id.example.com/" ++ state;
  exchange = λ code verifier. if text_eq code (codes "c0de") then some code else none;
  id_token_of = some;
  verify = some;
  claims =
      λ t. some (record { email = codes "alice@example.com"; name = codes "Alice"; picture = [] });
  raw_claim = λ t name. if text_eq name (codes "email_verified") then some true else none;
  json_bool = some;
  json_text = λ j. none;
  json_texts = λ j. [];
  challenge_of = λ v. v;
}

abbrev request : CallbackRequest
request = record {
  state_cookie = some (codes "r4nd|/docs");
  verifier_cookie = some (codes "v");
  state = codes "r4nd|/docs";
  code = codes "c0de";
}

handle_callback-LogsIn_example :
    LogsIn jwt oidc cfg request 1000 (handle_callback jwt oidc cfg request 1000 [])
    ⊎ Refuses jwt oidc cfg (handle_callback jwt oidc cfg request 1000 [])
handle_callback-LogsIn_example = Session.handle_callback-LogsIn jwt oidc cfg request 1000

abbrev alice_claims : Claims
alice_claims = record { email = codes "alice@example.com"; name = codes "Alice"; picture = [] }

-- The signed payload, as the stand-in for the JWT library writes it.
abbrev signed : Text
signed = 87400 ∷ 1000 ∷ 4 ∷ 0 ∷ 17 ∷ codes "alice@example.com" ++ 5 ∷ codes "Alice" ++ 0 ∷ []

oidc_middleware-session_example :
    oidc_middleware jwt oidc cfg net [] (some signed) 5000 none
    ≡ some (session_of jwt oidc cfg (codes "c0de") alice_claims)
unfolding session_claims groups_of text_eq
oidc_middleware-session_example =
    Session.oidc_middleware-session jwt oidc cfg jwt-IsJwt net [] (codes "c0de") alice_claims signed
      1000 5000 none refl (refl, inr (true, refl, inl refl), refl) (omega arith)
