-- ===== src/Rules/Fuzzy/Edits/Table.antt =====
-- The rows of levenshtein's table, as values of a recursive distance on the prefixes read backwards.
use mathlib.Core.List.{append-nil, append_assoc}
use victoria.Prelude.{
  ℕ, suc, ◌+◌, ◌≡◌, refl, sym, ap, ◌∙◌, arith, List, [], ◌∷◌, ◌++◌, true, eqb, length,
  length-append, Bool-cases, inl, inr,
}
use victoria.Rules.Fuzzy.{cost, min3, fill_row, fill_rows, counting, last, same_codes, levenshtein}

unfoldable pub dist : List ℕ → List ℕ → ℕ
unfolding min3
dist [] b = length b
dist (x ∷ a) [] = suc (length a)
dist (x ∷ a) (y ∷ b) = min3 (dist a (y ∷ b) + 1) (dist (x ∷ a) b + 1) (dist a b + cost x y)

unfoldable pub backwards : List ℕ → List ℕ
backwards [] = []
backwards (x ∷ a) = backwards a ++ x ∷ []

onto : List ℕ → List ℕ → List ℕ
onto [] acc = acc
onto (x ∷ a) acc = onto a (x ∷ acc)

onto-eq : (a acc : List ℕ) → onto a acc ≡ backwards a ++ acc
unfolding onto backwards
onto-eq [] acc = refl
onto-eq (x ∷ a) acc = onto-eq a (x ∷ acc) ∙ sym (append_assoc (backwards a) (x ∷ []) acc)

-- what stands in a row behind the entry of the prefix `b`, for the characters that follow
row : List ℕ → List ℕ → List ℕ → List ℕ
row a b [] = []
row a b (y ∷ ys) = dist a (y ∷ b) ∷ row a (y ∷ b) ys

counting-row : (b ys : List ℕ) → counting (length b) ys ≡ dist [] b ∷ row [] b ys
unfolding counting row dist
counting-row b [] = refl
counting-row b (y ∷ ys) = ap (λ r. length b ∷ r) (counting-row (y ∷ b) ys)

fill_row-row :
    (x : ℕ) (a b ys : List ℕ)
    → fill_row x ys (dist a b ∷ row a b ys) (dist (x ∷ a) b) ≡ row (x ∷ a) b ys
unfolding fill_row row dist
fill_row-row x a b [] = refl
fill_row-row x a b (y ∷ ys) = ap (λ r. dist (x ∷ a) (y ∷ b) ∷ r) (fill_row-row x a (y ∷ b) ys)

fill_rows-row :
    (xs a b : List ℕ)
    → fill_rows xs b (suc (length a)) (dist a [] ∷ row a [] b)
      ≡ dist (onto xs a) [] ∷ row (onto xs a) [] b
unfolding fill_rows onto dist
fill_rows-row [] a b = refl
fill_rows-row (x ∷ xs) a b = rw (fill_row-row x a [] b) (fill_rows-row xs (x ∷ a) b)

last-row : (a b ys : List ℕ) → last (dist a b ∷ row a b ys) ≡ dist a (onto ys b)
unfolding last row onto
last-row a b [] = refl
last-row a b (y ∷ ys) = last-row a (y ∷ b) ys

dist_self : (a : List ℕ) → dist a a ≡ 0
unfolding dist min3
dist_self [] = refl
dist_self (x ∷ a) = ground (arith, dist_self a)

same_codes-eq : (a b : List ℕ) → same_codes a b ≡ true → a ≡ b
unfolding same_codes
same_codes-eq [] [] h = refl
same_codes-eq [] (y ∷ b) h = cc
same_codes-eq (x ∷ a) [] h = cc
same_codes-eq (x ∷ a) (y ∷ b) h = ground (arith, same_codes-eq a b)

length-backwards : (a : List ℕ) → length (backwards a) ≡ length a
unfolding backwards
length-backwards [] = refl
length-backwards (x ∷ a) = omega (arith, length-backwards a, length-append (backwards a) (x ∷ []))

onto_nil : (a : List ℕ) → onto a [] ≡ backwards a
onto_nil a = onto-eq a [] ∙ append-nil (backwards a)

dist_nil : (a : List ℕ) → dist a [] ≡ length a
unfolding dist
dist_nil [] = refl
dist_nil (x ∷ a) = refl

length_zero : (a : List ℕ) → eqb (length a) 0 ≡ true → a ≡ []
length_zero [] h = refl
length_zero (x ∷ a) h = absurd (ground arith)

table-eq-dist :
    (a b : List ℕ) → last (fill_rows a b 1 (counting 0 b)) ≡ dist (backwards a) (backwards b)
table-eq-dist a b =
    ap (λ r. last (fill_rows a b 1 r)) (counting-row [] b)
    ∙ (ap last (fill_rows-row a [] b)
        ∙ (last-row (onto a []) [] b
            ∙ (ap (λ x. dist x (onto b [])) (onto_nil a) ∙ ap (dist (backwards a)) (onto_nil b))))

dist_empty_left : (b : List ℕ) → dist (backwards []) (backwards b) ≡ length b
unfolding backwards dist
dist_empty_left b = length-backwards b

dist_empty_right : (a : List ℕ) → dist (backwards a) (backwards []) ≡ length a
unfolding backwards
dist_empty_right a = dist_nil (backwards a) ∙ length-backwards a

pub levenshtein-eq-dist : (a b : List ℕ) → levenshtein a b ≡ dist (backwards a) (backwards b)
unfolding levenshtein
levenshtein-eq-dist a b = elim (Bool-cases (same_codes a b)) [
  | inl e ↦ rw e (rw (same_codes-eq a b e) (sym (dist_self (backwards b))))
  | inr e ↦ rw e (elim (Bool-cases (eqb (length a) 0)) [
    | inl f ↦ rw f (rw (length_zero a f) (sym (dist_empty_left b)))
    | inr f ↦ rw f (elim (Bool-cases (eqb (length b) 0)) [
      | inl g ↦ rw g (rw (length_zero b g) (sym (dist_empty_right a)))
      | inr g ↦ rw g (table-eq-dist a b)
    ])
  ])
]
