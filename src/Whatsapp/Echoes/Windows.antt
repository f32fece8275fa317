-- ===== src/Whatsapp/Echoes/Windows.antt =====
-- The window of the identifiers sent last, newest in front, and lists that are read backwards.
use victoria.Prelude.{
  ℕ, zero, suc, ◌≡◌, refl, arith, String, true, false, some, List, [], ◌∷◌, ◌++◌, ◌==◌, ◌||◌, not,
  if◌then◌else◌, eq_iff, eq_refl, length,
}
use victoria.App.Helpers.{contains}
use victoria.Whatsapp.Echoes.{replicate, get_elem?, set}

-- all but the last
pub init : List String → List String
init [] = []
init (x ∷ []) = []
init (x ∷ y ∷ xs) = x ∷ init (y ∷ xs)

-- a new identifier comes in front, and the oldest leaves
unfoldable pub remember : String → List String → List String
unfolding init
remember id window = if id == "" || contains window id then window else id ∷ init window

unfoldable pub remember_all : List String → List String → List String
remember_all [] window = window
remember_all (id ∷ ids) window = remember_all ids (remember id window)

unfoldable pub rev_onto : List String → List String → List String
rev_onto [] acc = acc
rev_onto (x ∷ xs) acc = rev_onto xs (x ∷ acc)

pub rev_onto-append : (xs ys zs : List String) → rev_onto xs (ys ++ zs) ≡ rev_onto xs ys ++ zs
unfolding rev_onto
rev_onto-append [] ys zs = refl
rev_onto-append (x ∷ xs) ys zs = rev_onto-append xs (x ∷ ys) zs

pub rev_onto-last :
    (xs : List String) (x : String) (acc : List String)
    → rev_onto (xs ++ x ∷ []) acc ≡ x ∷ rev_onto xs acc
unfolding rev_onto
rev_onto-last [] x acc = refl
rev_onto-last (y ∷ xs) x acc = rev_onto-last xs x (y ∷ acc)

pub init-append : (xs : List String) (x : String) → init (xs ++ x ∷ []) ≡ xs
unfolding init
init-append [] x = refl
init-append (y ∷ []) x = refl
init-append (y ∷ z ∷ xs) x = rw (init-append (z ∷ xs) x)

abbrev pub Distinct : List String → Type 0
Distinct [] = Unit
Distinct (x ∷ xs) = ((x == "" || not (contains xs x)) ≡ true) × Distinct xs

pub contains-append :
    (xs : List String) (o j : String) → contains (xs ++ o ∷ []) j ≡ (contains xs j || o == j)
unfolding contains
contains-append [] o j = ground arith
contains-append (x ∷ xs) o j = ground (arith, contains-append xs o j)

pub Distinct-init : (xs : List String) (o : String) → Distinct (xs ++ o ∷ []) → Distinct xs
Distinct-init [] o d = tt
Distinct-init (x ∷ xs) o d = (ground (arith, d.0, contains-append xs o x), Distinct-init xs o d.1)

-- the one that leaves stood there once
pub contains-init :
    (xs : List String) (o : String)
    → Distinct (xs ++ o ∷ [])
    → o == "" ≡ false
    → contains xs o ≡ false
unfolding contains
contains-init [] o d h = refl
contains-init (x ∷ xs) o d h =
    ground (arith, d.0, eq_iff x o, eq_refl o, contains-append xs o x, contains-init xs o d.1 h)

pub get_elem?-append :
    (xs ys : List String) (y : String) → get_elem? (xs ++ y ∷ ys) (length xs) ≡ some y
unfolding get_elem?
get_elem?-append [] ys y = refl
get_elem?-append (x ∷ xs) ys y = get_elem?-append xs ys y

pub set-append :
    (xs ys : List String) (y v : String) → set (xs ++ y ∷ ys) (length xs) v ≡ (xs ++ v ∷ []) ++ ys
unfolding set
set-append [] ys y v = refl
set-append (x ∷ xs) ys y v = rw (set-append xs ys y v)

pub Distinct-replicate : (n : ℕ) → Distinct (replicate n "")
unfolding replicate
Distinct-replicate zero = tt
Distinct-replicate (suc n) = (refl, Distinct-replicate n)

pub contains-replicate :
    (n : ℕ) (id : String) → id == "" ≡ false → contains (replicate n "") id ≡ false
unfolding replicate contains
contains-replicate zero id h = refl
contains-replicate (suc n) id h =
    ground (arith, eq_iff "" id, eq_refl id, contains-replicate n id h)

pub rev_onto-replicate_cons :
    (n : ℕ) (acc : List String)
    → rev_onto (replicate n "") ("" ∷ acc) ≡ "" ∷ rev_onto (replicate n "") acc
unfolding rev_onto replicate
rev_onto-replicate_cons zero acc = refl
rev_onto-replicate_cons (suc n) acc = rev_onto-replicate_cons n ("" ∷ acc)

pub rev_onto-replicate : (n : ℕ) → rev_onto (replicate n "") [] ≡ replicate n ""
unfolding rev_onto replicate
rev_onto-replicate zero = refl
rev_onto-replicate (suc n) = rw (rev_onto-replicate_cons n [], rev_onto-replicate n) refl

pub length-replicate : (n : ℕ) → length (replicate {A = String} n "") ≡ n
unfolding replicate
length-replicate zero = refl
length-replicate (suc n) = omega (arith, length-replicate n)
