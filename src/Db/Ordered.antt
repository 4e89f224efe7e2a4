-- ===== src/Db/Ordered.antt =====
-- Searches in ordered rows.
use golink_url_shortener.Base.{
  if◌then◌else◌, Bool-cases, any, find, All, Text, text_eq-eq, ◌≡◌, refl, sym, ap, ◌∙◌, ◌≢◌, inl,
  inr, Bool, true, false, ◌||◌, some, List, [], ◌∷◌, arith,
}
use golink_url_shortener.Db.Models.{Link, SortField, SortDir}
use golink_url_shortener.Db.Distinct.{Distinct}
use golink_url_shortener.Db.Order.{insert_row, order_rows, stands_before}
use golink_url_shortener.Db.Rows.{has_name}
use golink_url_shortener.Db.Selected.{All-insert_row, All-order_rows}

module _ (clause : List (SortField × SortDir)) where
  any-insert_row :
      (p : Link → Bool) (l : Link) (ls : List Link)
      → any p (insert_row clause l ls) ≡ (p l || any p ls)
  unfolding insert_row
  any-insert_row p l [] = refl
  any-insert_row p l (m ∷ ms) = ground (arith, any-insert_row p l ms)

  pub any-order_rows : (p : Link → Bool) (ls : List Link) → any p (order_rows clause ls) ≡ any p ls
  unfolding order_rows
  any-order_rows p [] = refl
  any-order_rows p (l ∷ ls) =
      any-insert_row p l (order_rows clause ls) ∙ ap (λ b. p l || b) (any-order_rows p ls)

  insert_row-Distinct :
      (l : Link) (ls : List Link)
      → Distinct (λ m. m.name_lower) (l ∷ ls)
      → Distinct (λ m. m.name_lower) (insert_row clause l ls)
  unfolding insert_row
  insert_row-Distinct l [] d = d
  insert_row-Distinct l (m ∷ ms) ((e, es), (d, ds)) = elim (Bool-cases (stands_before clause m l)) [
    | inl before ↦ rw before (
      All-insert_row (λ n. n.name_lower ≢ m.name_lower) clause l ms (λ h. e (sym h)) d,
      insert_row-Distinct l ms (es, ds),
    )
    | inr after ↦ rw after ((e, es), (d, ds))
  ]

  pub order_rows-Distinct :
      (ls : List Link)
      → Distinct (λ m. m.name_lower) ls
      → Distinct (λ m. m.name_lower) (order_rows clause ls)
  unfolding order_rows
  order_rows-Distinct [] d = d
  order_rows-Distinct (l ∷ ls) (d, ds) =
      insert_row-Distinct l (order_rows clause ls)
        (All-order_rows (λ n. n.name_lower ≢ l.name_lower) clause ls d, order_rows-Distinct ls ds)

  find-insert_row :
      (name : Text) (l : Link) (ls : List Link)
      → All (λ m. m.name_lower ≢ l.name_lower) ls
      → find (has_name name) (insert_row clause l ls) ≡ find (has_name name) (l ∷ ls)
  unfolding insert_row
  find-insert_row name l [] d = refl
  find-insert_row name l (m ∷ ms) (d, ds) = elim (Bool-cases (has_name name l)) [
    | inl hit ↦
        let miss : has_name name m ≡ false = differs hit in
        ground (arith, find-insert_row name l ms ds)
    | inr miss ↦ ground (arith, find-insert_row name l ms ds)
  ]
    where
      differs : has_name name l ≡ true → has_name name m ≡ false
      differs hit = elim (Bool-cases (has_name name m)) [
        | inl same ↦
            absurd (d (text_eq-eq m.name_lower name same ∙ sym (text_eq-eq l.name_lower name hit)))
        | inr other ↦ other
      ]

  pub find-order_rows :
      (name : Text) (ls : List Link)
      → Distinct (λ m. m.name_lower) ls
      → find (has_name name) (order_rows clause ls) ≡ find (has_name name) ls
  unfolding order_rows
  find-order_rows name [] d = refl
  find-order_rows name (l ∷ ls) (d, ds) =
      find-insert_row name l (order_rows clause ls)
        (All-order_rows (λ n. n.name_lower ≢ l.name_lower) clause ls d)
      ∙ ap (λ o. if has_name name l then some l else o) (find-order_rows name ls ds)
