-- ===== src/Rules/Fuzzy/Edits.antt =====
-- levenshtein of internal/app/rules.go finds the least number of single edits.
mod Table
use victoria.Prelude.{
  ℕ, zero, suc, ◌+◌, ◌≤◌, ◌≡◌, refl, sym, ap, subst, ◌∙◌, arith, List, [], ◌∷◌, ◌++◌, true, false,
  eqb, ltb, if◌then◌else◌, Bool-cases, inl, inr, length, ◌⊎◌,
}
use victoria.Rules.Fuzzy.{cost, min3, levenshtein}
use Table.{dist, backwards, levenshtein-eq-dist}

-- a way to turn one list into another by so many deletions, insertions and replacements
pub data Edits : List ℕ → List ℕ → ℕ → Type 0 where
  done : Edits [] [] 0
  delete : (x : ℕ) {a b : List ℕ} {n : ℕ} → Edits a b n → Edits (x ∷ a) b (suc n)
  insert : (y : ℕ) {a b : List ℕ} {n : ℕ} → Edits a b n → Edits a (y ∷ b) (suc n)
  keep : (x : ℕ) {a b : List ℕ} {n : ℕ} → Edits a b n → Edits (x ∷ a) (x ∷ b) n
  replace : (x y : ℕ) {a b : List ℕ} {n : ℕ} → Edits a b n → Edits (x ∷ a) (y ∷ b) (suc n)

-- an edit at the other end
delete_last : (x : ℕ) {a b : List ℕ} {n : ℕ} → Edits a b n → Edits (a ++ x ∷ []) b (suc n)
delete_last x done = delete x done
delete_last x (delete z e) = delete z (delete_last x e)
delete_last x (insert z e) = insert z (delete_last x e)
delete_last x (keep z e) = keep z (delete_last x e)
delete_last x (replace z w e) = replace z w (delete_last x e)

insert_last : (y : ℕ) {a b : List ℕ} {n : ℕ} → Edits a b n → Edits a (b ++ y ∷ []) (suc n)
insert_last y done = insert y done
insert_last y (delete z e) = delete z (insert_last y e)
insert_last y (insert z e) = insert z (insert_last y e)
insert_last y (keep z e) = keep z (insert_last y e)
insert_last y (replace z w e) = replace z w (insert_last y e)

keep_last : (x : ℕ) {a b : List ℕ} {n : ℕ} → Edits a b n → Edits (a ++ x ∷ []) (b ++ x ∷ []) n
keep_last x done = keep x done
keep_last x (delete z e) = delete z (keep_last x e)
keep_last x (insert z e) = insert z (keep_last x e)
keep_last x (keep z e) = keep z (keep_last x e)
keep_last x (replace z w e) = replace z w (keep_last x e)

replace_last :
    (x y : ℕ) {a b : List ℕ} {n : ℕ} → Edits a b n → Edits (a ++ x ∷ []) (b ++ y ∷ []) (suc n)
replace_last x y done = replace x y done
replace_last x y (delete z e) = delete z (replace_last x y e)
replace_last x y (insert z e) = insert z (replace_last x y e)
replace_last x y (keep z e) = keep z (replace_last x y e)
replace_last x y (replace z w e) = replace z w (replace_last x y e)

-- the same edits from the other end
reverse : {a b : List ℕ} {n : ℕ} → Edits a b n → Edits (backwards a) (backwards b) n
unfolding backwards
reverse done = done
reverse (delete x e) = delete_last x (reverse e)
reverse (insert y e) = insert_last y (reverse e)
reverse (keep x e) = keep_last x (reverse e)
reverse (replace x y e) = replace_last x y (reverse e)

dist_delete : (x : ℕ) (a b : List ℕ) → dist (x ∷ a) b ≤ dist a b + 1
unfolding dist min3
dist_delete x [] [] = omega arith
dist_delete x (z ∷ a) [] = omega arith
dist_delete x a (y ∷ b) = ground arith

dist_insert : (y : ℕ) (a b : List ℕ) → dist a (y ∷ b) ≤ dist a b + 1
unfolding dist min3
dist_insert y [] b = omega arith
dist_insert y (x ∷ a) b = ground arith

dist_replace : (x y : ℕ) (a b : List ℕ) → dist (x ∷ a) (y ∷ b) ≤ dist a b + cost x y
unfolding dist min3
dist_replace x y a b = ground arith

cost_self : (x : ℕ) → cost x x ≡ 0
cost_self x = ground arith

cost-le-one : (x y : ℕ) → cost x y ≤ 1
cost-le-one x y = ground arith

dist-le : {a b : List ℕ} {n : ℕ} → Edits a b n → dist a b ≤ n
unfolding dist
dist-le done = omega arith
dist-le (delete x {a} {b} e) = omega (arith, dist_delete x a b, dist-le e)
dist-le (insert y {a} {b} e) = omega (arith, dist_insert y a b, dist-le e)
dist-le (keep x {a} {b} e) = omega (arith, dist_replace x x a b, cost_self x, dist-le e)
dist-le (replace x y {a} {b} e) = omega (arith, dist_replace x y a b, cost-le-one x y, dist-le e)

renumber : {a b : List ℕ} {n m : ℕ} → n ≡ m → Edits a b n → Edits a b m
renumber {a} {b} h e = subst (Edits a b) h e

min3-cases : (a b c : ℕ) → (min3 a b c ≡ a) ⊎ ((min3 a b c ≡ b) ⊎ (min3 a b c ≡ c))
unfolding min3
min3-cases a b c = elim (Bool-cases (ltb b a)) [
  | inl e ↦ elim (Bool-cases (ltb c b)) [
    | inl f ↦ inr (inr (ground arith))
    | inr f ↦ inr (inl (ground arith))
  ]
  | inr e ↦ elim (Bool-cases (ltb c a)) [
    | inl f ↦ inr (inr (ground arith))
    | inr f ↦ inl (ground arith)
  ]
]

replace_or_keep :
    (x y : ℕ) {a b : List ℕ} {n : ℕ} → Edits a b n → Edits (x ∷ a) (y ∷ b) (n + cost x y)
replace_or_keep x y {a} {b} {n} e = elim (Bool-cases (eqb x y)) [
  | inl h ↦
      let same : x ≡ y = ground arith in
      let free : n ≡ n + cost x y = ground arith in
      subst (λ z. Edits (x ∷ a) (z ∷ b) (n + cost x y)) same (renumber free (keep x e))
  | inr h ↦ renumber (ground arith) (replace x y e)
]

all_inserted : (b : List ℕ) → Edits [] b (length b)
all_inserted [] = done
all_inserted (y ∷ b) = insert y (all_inserted b)

all_deleted : (a : List ℕ) → Edits a [] (length a)
all_deleted [] = done
all_deleted (x ∷ a) = delete x (all_deleted a)

dist_attained : (a b : List ℕ) → Edits a b (dist a b)
unfolding dist
dist_attained [] b = all_inserted b
dist_attained (x ∷ a) [] = all_deleted (x ∷ a)
dist_attained (x ∷ a) (y ∷ b) =
    let e = delete x (dist_attained a (y ∷ b)) in
    let f = insert y (dist_attained (x ∷ a) b) in
    let g = replace_or_keep x y (dist_attained a b) in
    elim (min3-cases (dist a (y ∷ b) + 1) (dist (x ∷ a) b + 1) (dist a b + cost x y)) [
      | inl h ↦ renumber (omega (arith, h)) e
      | inr (inl h) ↦ renumber (omega (arith, h)) f
      | inr (inr h) ↦ renumber (sym h) g
    ]

backwards-append_one : (a : List ℕ) (x : ℕ) → backwards (a ++ x ∷ []) ≡ x ∷ backwards a
unfolding backwards
backwards-append_one [] x = refl
backwards-append_one (y ∷ a) x = ap (λ r. r ++ y ∷ []) (backwards-append_one a x)

backwards_twice : (a : List ℕ) → backwards (backwards a) ≡ a
unfolding backwards
backwards_twice [] = refl
backwards_twice (x ∷ a) = backwards-append_one (backwards a) x ∙ ap (λ r. x ∷ r) (backwards_twice a)

-- The table's last entry is the least number of deletions, insertions and replacements of single
-- characters that turn the first text into the second: some way takes that many, and none fewer.
pub levenshtein-least :
    (a b : List ℕ) → Edits a b (levenshtein a b) × ((n : ℕ) → Edits a b n → levenshtein a b ≤ n)
levenshtein-least a b = (
  subst (λ (x : List ℕ × List ℕ × ℕ). Edits x.0 x.1 x.2)
      (λ i. (backwards_twice a i, backwards_twice b i, sym (levenshtein-eq-dist a b) i))
      (reverse (dist_attained (backwards a) (backwards b))),
  λ n e. rw (levenshtein-eq-dist a b) (dist-le (reverse e)),
)
