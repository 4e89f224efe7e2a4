-- ===== src/Tests/LruExample.antt =====
-- A cache as an association list, which has the properties that the program relies on.
use golink_url_shortener.Base.{
  if◌then◌else◌, Bool-cases, Text, text_eq, text_eq-eq, text_eq_iff, ℕ, zero, suc, ◌≡◌, refl, sym,
  ◌≢◌, ◌⊎◌, inl, inr, Option, none, some, List, [], ◌∷◌, arith,
}
use golink_url_shortener.Db.Models.{Link}
use golink_url_shortener.Db.Cache.{Lru, IsCache}

abbrev pub Entries : Type 0
Entries = List (Text × Link)

unfoldable pub cached : Text → Entries → Option Link
cached k [] = none
cached k ((j, v) ∷ es) = let rest = cached k es in if text_eq j k then some v else rest

unfoldable pub evict : Text → Entries → Entries
evict k [] = []
evict k ((j, v) ∷ es) = let rest = evict k es in if text_eq j k then rest else (j, v) ∷ rest

-- Any passing of time drops everything.
abbrev pub passed : ℕ → Entries → Entries
passed zero c = c
passed (suc n) c = []

abbrev pub lru : Lru Entries
lru = record {
  get = λ c k. (cached k c, c);
  add = λ c k v. (k, v) ∷ c;
  remove = λ c k. evict k c;
  purge = λ c. [];
  elapse = passed;
}

some_inj : {a b : Link} → some a ≡ some b → a ≡ b
some_inj e = ground arith

cached-add :
    (c : Entries) (j k : Text) (w v : Link)
    → cached k ((j, w) ∷ c) ≡ some v
    → ((k ≡ j) × (v ≡ w)) ⊎ ((k ≢ j) × (cached k c ≡ some v))
unfolding cached
cached-add c j k w v h = elim (Bool-cases (text_eq j k)) [
  | inl same ↦ inl (sym (text_eq-eq j k same), sym (some_inj (rw same at h)))
  | inr other ↦ inr ((λ e. absurd (ground (arith, text_eq_iff j k, e))), rw other at h)
]

cached-evict :
    (c : Entries) (j k : Text) (v : Link)
    → cached k (evict j c) ≡ some v
    → (k ≢ j) × (cached k c ≡ some v)
unfolding cached evict
cached-evict [] j k v h = absurd (ground arith)
cached-evict ((i, w) ∷ c) j k v h = elim (Bool-cases (text_eq i j)) [
  | inl gone ↦
      let (differs, found) = cached-evict c j k v (rw gone at h) in
      (differs, ground (arith, text_eq_iff i j, text_eq_iff i k))
  | inr kept ↦ elim (Bool-cases (text_eq i k)) [
    | inl here ↦ ((λ e. absurd (ground (arith, text_eq_iff i j, text_eq_iff i k, e))), ground arith)
    | inr there ↦
        let (differs, found) = cached-evict c j k v (rw (kept, there) at h) in
        (differs, ground arith)
  ]
]

cached-passed :
    (c : Entries) (n : ℕ) (k : Text) (v : Link)
    → cached k (passed n c) ≡ some v
    → cached k c ≡ some v
unfolding cached
cached-passed c zero k v h = h
cached-passed c (suc n) k v h = absurd (ground arith)

pub lru-IsCache : IsCache lru
unfolding cached
lru-IsCache = record {
  get-after_get = λ c j k v h. h;
  get-add = cached-add;
  get-remove = cached-evict;
  get-purge = λ c k. refl;
  get-elapse = cached-passed;
}
