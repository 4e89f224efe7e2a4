-- ===== src/Server/Steps.antt =====
-- The steps of the actions in internal/server/link_actions.go.
use golink_url_shortener.Base.{◌≡◌, refl, sym, ap, Bool, true, false, Option, none, some}
use golink_url_shortener.Base.{Result, ok, err}
use golink_url_shortener.Server.Actions.{
  Action, and_then, ◌>>=◌, return, fail_if, fail_on, wrap, wrapped,
}

-- A step that ends with a value went on after its first part.
pub bind-ok :
    {S E A B : Type 0} (m : Action S E A) (f : A → Action S E B) (s t : S) (b : B)
    → ◌≡◌ {A = Result E B × S} (◌>>=◌ m f s) (ok b, t)
    → (a : A) × (s' : S) × (m s ≡ (ok a, s')) × (f a s' ≡ (ok b, t))
bind-ok {S} {E} {A} {B} m f s t b h = go (m s) refl h
  where
    go :
        (r : Result E A × S)
        → m s ≡ r
        → and_then f r ≡ (ok b, t)
        → (a : A) × (s' : S) × (m s ≡ (ok a, s')) × (f a s' ≡ (ok b, t))
    go (ok a, s') e k = (a, s', e, k)
    go (err d, s') e k = absurd (apart (ap (λ (r : Result E B × S). r.0) k))
      where
        apart : {d : E} {u : B} → ◌≡◌ {A = Result E B} (err d) (ok u) → ⊥
        apart q = cc

pub return-ok :
    {S E A : Type 0} (a b : A) (s t : S)
    → ◌≡◌ {A = Result E A × S} (return a s) (ok b, t)
    → (a ≡ b) × (s ≡ t)
return-ok {S} {E} {A} a b s t h =
    (ap back (ap (λ (r : Result E A × S). r.0) h), ap (λ (r : Result E A × S). r.1) h)
  where
    back : Result E A → A
    back (ok c) = c
    back (err d) = a

pub fail_on-ok :
    {S D E : Type 0} (o : Option D) (f : D → E) (s s' : S) {u : Unit {0}}
    → ◌≡◌ {A = Result E (Unit {0}) × S} (fail_on o f s) (ok u, s')
    → (o ≡ none) × (s' ≡ s)
fail_on-ok {S} {D} {E} none f s s' e = (refl, ap (λ (r : Result E (Unit {0}) × S). r.1) (sym e))
fail_on-ok {S} {D} {E} (some d) f s s' e =
    absurd (apart (ap (λ (r : Result E (Unit {0}) × S). r.0) e))
  where
    apart : {d : E} {u : Unit {0}} → ◌≡◌ {A = Result E (Unit {0})} (err d) (ok u) → ⊥
    apart q = cc

pub failed :
    {S E A : Type 0} {e : E} {a : A} {s s' : S} → ◌≡◌ {A = Result E A × S} (err e, s) (ok a, s') → ⊥
failed {S} {E} {A} h = apart (ap (λ (r : Result E A × S). r.0) h)
  where
    apart : {d : E} {u : A} → ◌≡◌ {A = Result E A} (err d) (ok u) → ⊥
    apart q = cc

pub fail_if-ok :
    {S E : Type 0} (b : Bool) (e : E) (s s' : S) {u : Unit {0}}
    → ◌≡◌ {A = Result E (Unit {0}) × S} (fail_if b e s) (ok u, s')
    → (b ≡ false) × (s' ≡ s)
fail_if-ok {S} {E} false e s s' h = (refl, ap (λ (r : Result E (Unit {0}) × S). r.1) (sym h))
fail_if-ok {S} {E} true e s s' h = absurd (failed h)

pub wrap-ok :
    {S D E A : Type 0} (f : D → E) (m : Action S D A) (s : S) (a : A) (s' : S)
    → wrap f m s ≡ (ok a, s')
    → m s ≡ (ok a, s')
wrap-ok {S} {D} {E} {A} f m s a s' h = go (m s) h
  where
    go : (r : Result D A × S) → wrapped f r ≡ (ok a, s') → r ≡ (ok a, s')
    go (ok b, t) q = ap back q
      where
        back : Result E A × S → Result D A × S
        back (ok c, u) = (ok c, u)
        back (err d, u) = (ok b, u)
    go (err d, t) q = absurd (failed q)
