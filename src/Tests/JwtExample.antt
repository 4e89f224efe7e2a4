-- ===== src/Tests/JwtExample.antt =====
-- A stand-in for golang-jwt that meets its laws: a token is its key and its claims, in frames that say
-- how long they are.
use golink_url_shortener.Base.{
  ltb, if◌then◌else◌, length, take, drop, Text, text_eq, text_eq_refl, ℕ, zero, suc, ◌<◌, ◌≡◌, refl,
  sym, ap, ◌∙◌, Bool, true, ◌&&◌, Option, none, some, List, [], ◌∷◌, ◌++◌, arith,
}
use golink_url_shortener.Server.Cookies.{SessionClaims, JwtPackage, IsJwt}

abbrev frame : Text → Text
frame s = length s ∷ s

-- The first frame of a text, and the rest.
abbrev unframe : Text → Text × Text
unframe [] = ([], [])
unframe (n ∷ s) = (take n s, drop n s)

take-append : (s t : Text) → take (length s) (s ++ t) ≡ s
take-append [] t = refl
take-append (c ∷ s) t = ap (◌∷◌ c) (take-append s t)

drop-append : (s t : Text) → drop (length s) (s ++ t) ≡ t
drop-append [] t = refl
drop-append (c ∷ s) t = drop-append s t

unframe-frame : (s t : Text) → unframe (frame s ++ t) ≡ (s, t)
unframe-frame s t = λ i. (take-append s t i, drop-append s t i)

abbrev frames : List Text → Text
frames [] = []
frames (s ∷ ss) = frame s ++ frames ss

abbrev unframes : ℕ → Text → List Text
unframes zero t = []
unframes (suc n) t = (unframe t).0 ∷ unframes n (unframe t).1

unframes-frames : (ss : List Text) → unframes (length ss) (frames ss) ≡ ss
unframes-frames [] = refl
unframes-frames (s ∷ ss) =
    ap (λ (p : Text × Text). p.0 ∷ unframes (length ss) p.1) (unframe-frame s (frames ss))
    ∙ ap (◌∷◌ s) (unframes-frames ss)

abbrev texts_of : SessionClaims → List Text
texts_of c = c.email ∷ c.display_name ∷ c.avatar_url ∷ c.groups

abbrev sign : Text → SessionClaims → Option Text
sign key c =
    some (c.expires_at ∷ c.issued_at ∷ length (key ∷ texts_of c) ∷ frames (key ∷ texts_of c))

abbrev claims_of : ℕ → ℕ → List Text → Option (Text × SessionClaims)
claims_of expires issued (key ∷ email ∷ name ∷ picture ∷ groups) = some (
  key,
  record {
    expires_at = expires;
    issued_at = issued;
    email = email;
    display_name = name;
    avatar_url = picture;
    groups = groups;
  },
)
claims_of expires issued ss = none

abbrev decode : Text → Option (Text × SessionClaims)
decode (expires ∷ issued ∷ n ∷ t) = claims_of expires issued (unframes n t)
decode t = none

abbrev accept : Option Text → ℕ → Option (Text × SessionClaims) → Option SessionClaims
accept none now signed = none
accept (some key) now none = none
accept (some key) now (some (k, c)) = if text_eq k key && ltb now c.expires_at then some c else none

abbrev pub jwt : JwtPackage
jwt = record {
  Method = Bool;
  hs256 = true;
  is_hmac = λ m. m;
  sign = sign;
  parse_with_claims = λ keys now t. accept (keys true) now (decode t);
}

decode-sign :
    (key : Text) (c : SessionClaims) (t : Text) → sign key c ≡ some t → decode t ≡ some (key, c)
decode-sign key c t h =
    let same : (c.expires_at ∷ c.issued_at ∷ length (key ∷ texts_of c) ∷ frames (key ∷ texts_of c))
        ≡ t =
      ground arith in
    ap decode (sym same)
    ∙ ap (claims_of c.expires_at c.issued_at) (unframes-frames (key ∷ texts_of c))

accepted :
    (key : Text) (c : SessionClaims) (now : ℕ)
    → now < c.expires_at
    → accept (some key) now (some (key, c)) ≡ some c
accepted key c now h = ground (arith, text_eq_refl key)

pub jwt-IsJwt : IsJwt jwt
jwt-IsJwt = record {
  hs256_hmac = refl;
  parse-sign = λ key c t keys now signed has_key fresh.
      ap (λ k. accept k now (decode t)) has_key
      ∙ ap (accept (some key) now) (decode-sign key c t signed)
      ∙ accepted key c now fresh;
}
