-- ===== src/Db/ByName.antt =====
-- What ORDER BY makes of links that are sorted by their names, in internal/db/link_repo.go.
use golink_url_shortener.Base.{
  ==_iff, Bool-cases, Text, text_eq, ◌≡◌, refl, sym, ◌∙◌, inl, inr, true, false, List, [], ◌∷◌,
  arith,
}
use golink_url_shortener.Db.Models.{Link, sort_by_name, sort_asc, SortField, SortDir}
use golink_url_shortener.Db.Order.{
  text_ltb, column, value_ltb, stands_before, order_by_clause, insert_row, order_rows,
}

-- No link has a name after that of the next one.
abbrev pub IsOrdered : List Link → Type 0
IsOrdered [] = Unit {0}
IsOrdered (l ∷ []) = Unit {0}
IsOrdered (l ∷ m ∷ ms) = (text_ltb m.name_lower l.name_lower ≡ false) × IsOrdered (m ∷ ms)

text_ltb_asym : (s t : Text) → text_ltb s t ≡ true → text_ltb t s ≡ false
unfolding text_ltb
text_ltb_asym s [] h = absurd (ground arith)
text_ltb_asym [] (d ∷ t) h = refl
text_ltb_asym (c ∷ s) (d ∷ t) h = ground (arith, ==_iff c d, ==_iff d c, text_ltb_asym s t)

abbrev pub by_name : List (SortField × SortDir)
by_name = order_by_clause sort_by_name sort_asc

stands_before-name : (l m : Link) → stands_before by_name m l ≡ text_ltb m.name_lower l.name_lower
unfolding stands_before order_by_clause column value_ltb text_eq
stands_before-name l m = ground arith

insert_row-IsOrdered :
    (l : Link) (ls : List Link) → IsOrdered ls → IsOrdered (insert_row by_name l ls)
unfolding insert_row
insert_row-IsOrdered l [] h = tt
insert_row-IsOrdered l (m ∷ []) h = elim (Bool-cases (stands_before by_name m l)) [
  | inl before ↦
      rw before
        (text_ltb_asym m.name_lower l.name_lower (sym (stands_before-name l m) ∙ before), tt)
  | inr after ↦ rw after (sym (stands_before-name l m) ∙ after, tt)
]
insert_row-IsOrdered l (m ∷ n ∷ ns) (o, os) = elim (Bool-cases (stands_before by_name m l)) [
  | inr after ↦ rw after (sym (stands_before-name l m) ∙ after, (o, os))
  | inl before ↦
      let ih = insert_row-IsOrdered l (n ∷ ns) os in
      elim (Bool-cases (stands_before by_name n l)) [
        | inl next ↦ rw (before, next) (o, (rw next at ih))
        | inr last ↦
            rw (before, last)
              (
                text_ltb_asym m.name_lower l.name_lower (sym (stands_before-name l m) ∙ before),
                (rw last at ih),
              )
      ]
]

pub order_rows-IsOrdered : (ls : List Link) → IsOrdered (order_rows by_name ls)
unfolding order_rows
order_rows-IsOrdered [] = tt
order_rows-IsOrdered (l ∷ ls) =
    insert_row-IsOrdered l (order_rows by_name ls) (order_rows-IsOrdered ls)
