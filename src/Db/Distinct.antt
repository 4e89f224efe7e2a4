-- ===== src/Db/Distinct.antt =====
-- Rows that differ in a column, under the changes that statements make.
use golink_url_shortener.Base.{
  ◌==◌, if◌then◌else◌, ==_iff, Bool-cases, any, keep, All, All-keep, Text, text_eq_iff, ℕ, ◌+◌, ◌<◌,
  ◌≡◌, refl, sym, ◌∙◌, ◌≢◌, inl, inr, Bool, false, List, [], ◌∷◌, arith,
}
use mathlib.Core.Path.{subst}
use golink_url_shortener.Db.Models.{Link}
use golink_url_shortener.Db.Rows.{has_id, has_name, update_where, name_taken}

-- No two rows have the same value in a column.
abbrev pub Distinct {ℓ} : {K : Type ℓ} → (Link → K) → List Link → Type ℓ
Distinct key [] = Unit
Distinct key (l ∷ ls) = All (λ m. key m ≢ key l) ls × Distinct key ls

pub not-any-name :
    (name : Text) (ls : List Link)
    → any (has_name name) ls ≡ false
    → All (λ m. m.name_lower ≢ name) ls
not-any-name name [] h = tt
not-any-name name (l ∷ ls) h =
    (λ e. ground (arith, text_eq_iff l.name_lower name), not-any-name name ls (ground arith))

pub fresh-differs : (n : ℕ) (ls : List Link) → All (λ m. m.id < n) ls → All (λ m. m.id ≢ n) ls
fresh-differs n [] h = tt
fresh-differs n (l ∷ ls) (h, hs) = (λ e. absurd (omega arith), fresh-differs n ls hs)

pub fresh-grows : (n : ℕ) (ls : List Link) → All (λ m. m.id < n) ls → All (λ m. m.id < n + 1) ls
fresh-grows n [] h = tt
fresh-grows n (l ∷ ls) (h, hs) = (omega arith, fresh-grows n ls hs)

pub update_where-All {ℓ} :
    (P : Link → Type ℓ) (p : Link → Bool) (f : Link → Link)
    → ((l : Link) → P l → P (f l))
    → (ls : List Link) → All P ls
    → All P (update_where p f ls)
unfolding update_where
update_where-All P p f keeps [] h = tt
update_where-All P p f keeps (l ∷ ls) (h, hs) = elim (Bool-cases (p l)) [
  | inl hit ↦ rw hit (keeps l h, update_where-All P p f keeps ls hs)
  | inr miss ↦ rw miss (h, update_where-All P p f keeps ls hs)
]

module _ {ℓ} {K : Type ℓ} (key : Link → K) where
  key-if :
      (p : Link → Bool) (f : Link → Link)
      → ((l : Link) → key (f l) ≡ key l)
      → (l : Link) → key (if p l then f l else l) ≡ key l
  key-if p f same l = elim (Bool-cases (p l)) [
    | inl hit ↦ rw hit (same l)
    | inr miss ↦ rw miss refl
  ]

  pub keep-Distinct :
      (p : Link → Bool) (ls : List Link) → Distinct key ls → Distinct key (keep p ls)
  keep-Distinct p [] h = tt
  keep-Distinct p (l ∷ ls) (h, hs) = elim (Bool-cases (p l)) [
    | inl stays ↦ rw stays (All-keep (λ m. key m ≢ key l) p ls h, keep-Distinct p ls hs)
    | inr goes ↦ rw goes (keep-Distinct p ls hs)
  ]

  -- A change of other columns.
  pub update_where-Distinct :
      (p : Link → Bool) (f : Link → Link)
      → ((l : Link) → key (f l) ≡ key l)
      → (ls : List Link) → Distinct key ls
      → Distinct key (update_where p f ls)
  unfolding update_where
  update_where-Distinct p f same [] h = tt
  update_where-Distinct p f same (l ∷ ls) (h, hs) = (
    rw (key-if p f same l) (update_where-All (λ m. key m ≢ key l) p f (λ m k. rw (same m) k) ls h),
    update_where-Distinct p f same ls hs,
  )

-- No row has the id: nothing is updated.
pub update_where-absent :
    (id : ℕ) (f : Link → Link) (ls : List Link)
    → All (λ m. m.id ≢ id) ls
    → update_where (has_id id) f ls ≡ ls
unfolding update_where
update_where-absent id f [] h = refl
update_where-absent id f (l ∷ ls) (h, hs) = ground (arith, update_where-absent id f ls hs)

-- A name that no other row has is new to all rows with another id.
name_free :
    (id : ℕ) (name : Text) (ls : List Link)
    → name_taken id name ls ≡ false
    → All (λ m. m.id ≢ id) ls
    → All (λ m. m.name_lower ≢ name) ls
unfolding name_taken
name_free id name [] h k = tt
name_free id name (l ∷ ls) h (k, ks) =
    (λ e. ground (arith, text_eq_iff l.name_lower name), name_free id name ls (ground arith) ks)

module _ (id : ℕ) (name : Text) (f : Link → Link)
    (renames : (l : Link) → (f l).name_lower ≡ name) where
  -- The rows in front of the one that is renamed keep their distance to it.
  rename-All :
      (k : Text) (ls : List Link)
      → k ≢ name
      → All (λ m. m.name_lower ≢ k) ls
      → All (λ m. m.name_lower ≢ k) (update_where (has_id id) f ls)
  rename-All k ls free h =
      update_where-All (λ m. m.name_lower ≢ k) (has_id id) f (λ m _ e. free (sym e ∙ renames m)) ls
        h

  free_tail :
      (l : Link) (ls : List Link)
      → name_taken id name (l ∷ ls) ≡ false
      → name_taken id name ls ≡ false
  unfolding name_taken
  free_tail l ls h = ground arith

  free_head :
      (l : Link) (ls : List Link)
      → name_taken id name (l ∷ ls) ≡ false
      → (l.id == id) ≡ false
      → l.name_lower ≢ name
  unfolding name_taken
  free_head l ls h miss = λ e. ground (arith, text_eq_iff l.name_lower name)

  -- A row that takes a name which no other row has.
  pub rename-Distinct :
      (ls : List Link)
      → name_taken id name ls ≡ false
      → Distinct (λ l. l.id) ls
      → Distinct (λ l. l.name_lower) ls
      → Distinct (λ l. l.name_lower) (update_where (has_id id) f ls)
  unfolding update_where
  rename-Distinct [] free ids names = tt
  rename-Distinct (l ∷ ls) free (i, ids) (n, names) = elim (Bool-cases (l.id == id)) [
    | inl hit ↦
        let others = subst (λ k. All (λ (m : Link). m.id ≢ k) ls) ((==_iff l.id id).0 hit) i in
        rw (hit, update_where-absent id f ls others, renames l)
          (name_free id name ls (free_tail l ls free) others, names)
    | inr miss ↦ rw miss (
      rename-All l.name_lower ls (free_head l ls free miss) n,
      rename-Distinct ls (free_tail l ls free) ids names,
    )
  ]
