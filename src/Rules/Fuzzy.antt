-- ===== src/Rules/Fuzzy.antt =====
-- containsOrFuzzy and levenshtein of internal/app/rules.go: the typo-forgiving layer.
pub mod Edits
use Prim.Native.String.{len}
use victoria.Prelude.{
  ℕ, suc, ◌+◌, String, Bool, true, false, List, [], ◌∷◌, ◌||◌, ◌&&◌, if◌then◌else◌, ltb, leb, eqb,
  length,
}
use victoria.Text.{trim, contains_text, fields, codes}

min3 : ℕ → ℕ → ℕ → ℕ
min3 a b c = let m = if ltb b a then b else a in if ltb c m then c else m

abbrev pub cost : ℕ → ℕ → ℕ
cost x y = if eqb x y then 0 else 1

-- the inner loop, from column j on: `prev` is prev[j-1:] and `left` is cur[j-1]
fill_row : ℕ → List ℕ → List ℕ → ℕ → List ℕ
fill_row x (y ∷ ys) (diagonal ∷ above ∷ prev) left =
    let next = min3 (above + 1) (left + 1) (diagonal + cost x y) in
    next ∷ fill_row x ys (above ∷ prev) next
fill_row x _ _ left = []

-- the outer loop, from row i on; a row begins with cur[0] = i
fill_rows : List ℕ → List ℕ → ℕ → List ℕ → List ℕ
fill_rows [] b i prev = prev
fill_rows (x ∷ a) b i prev = fill_rows a b (suc i) (i ∷ fill_row x b prev i)

-- prev[j] = j
counting : ℕ → List ℕ → List ℕ
counting j [] = j ∷ []
counting j (y ∷ b) = j ∷ counting (suc j) b

-- prev[len(b)], the last entry
last : List ℕ → ℕ
last [] = 0
last (n ∷ []) = n
last (n ∷ m ∷ ns) = last (m ∷ ns)

-- a == b on strings
same_codes : List ℕ → List ℕ → Bool
same_codes [] [] = true
same_codes (x ∷ a) (y ∷ b) = eqb x y && same_codes a b
same_codes _ _ = false

pub levenshtein : List ℕ → List ℕ → ℕ
unfolding min3 fill_row fill_rows counting last same_codes
levenshtein a b =
    if same_codes a b
    then 0
    else if eqb (length a) 0
    then length b
    else if eqb (length b) 0
    then length a
    else last (fill_rows a b 1 (counting 0 b))

-- the body of the loop over the words
close_word : String → String → Bool
close_word keyword word =
    let tok = trim word ".,!?;:'\"" in
    if ltb (len tok) 4 then false else leb (levenshtein (codes tok) (codes keyword)) 2

any_close : String → List String → Bool
any_close keyword [] = false
any_close keyword (word ∷ words) = close_word keyword word || any_close keyword words

unfoldable pub contains_or_fuzzy : String → String → Bool
unfolding any_close close_word levenshtein
contains_or_fuzzy text keyword =
    if contains_text text keyword
    then true
    else if ltb (len keyword) 4 || contains_text keyword " "
    then false
    else any_close keyword (fields text)
