-- ===== src/Sort.antt =====
-- sort.Slice and sort.Strings as an insertion sort by a Boolean less-than. (The order in which Go
-- leaves elements that are equal under the test is not determined; here they keep their order.)
use victoria.Prelude.{String, Bool, List, [], ◌∷◌, if◌then◌else◌, is_lt, compare_text}

module _ {ℓ} {A : Type ℓ} (less : A → A → Bool) where
  unfoldable pub insert_sorted : A → List A → List A
  insert_sorted x [] = x ∷ []
  insert_sorted x (y ∷ ys) = if less y x then y ∷ insert_sorted x ys else x ∷ y ∷ ys

  unfoldable pub sort_by : List A → List A
  unfolding insert_sorted
  sort_by [] = []
  sort_by (x ∷ xs) = insert_sorted x (sort_by xs)

-- `a < b` on strings: by bytes
abbrev pub text_less : String → String → Bool
text_less a b = is_lt (compare_text a b)
