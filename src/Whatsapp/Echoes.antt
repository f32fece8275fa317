-- ===== src/Whatsapp/Echoes.antt =====
-- sentIDs of internal/channel/whatsapp/adapter.go: the bounded set of the identifiers sent last.
pub mod Windows
pub mod Recent
pub mod Added
use victoria.Prelude.{
  ℕ, zero, suc, ◌+◌, String, Bool, true, false, Option, none, some, List, [], ◌∷◌, ◌==◌,
  if◌then◌else◌,
}
use Prim.Native.Nat.{◌%◌}
use victoria.GoMap.{GoMap, get, put, remove}

module _ {ℓ} {A : Type ℓ} where
  pub replicate : ℕ → A → List A
  replicate zero x = []
  replicate (suc n) x = x ∷ replicate n x

  -- a read; none is the panic of an index out of range
  pub get_elem? : List A → ℕ → Option A
  get_elem? [] i = none
  get_elem? (x ∷ xs) zero = some x
  get_elem? (x ∷ xs) (suc i) = get_elem? xs i

  pub set : List A → ℕ → A → List A
  set [] i v = []
  set (x ∷ xs) zero v = v ∷ xs
  set (x ∷ xs) (suc i) v = x ∷ set xs i v

pub record SentIds : Type 0 where
  pub ring : List String
  pub idx : ℕ
  pub set_of : GoMap (Unit {0})
  pub limit : ℕ

-- newSentIDs
unfoldable pub new_sent_ids : ℕ → SentIds
unfolding replicate
new_sent_ids limit = record { ring = replicate limit ""; idx = 0; set_of = []; limit = limit }

abbrev pub is_there : Option (Unit {0}) → Bool
is_there none = false
is_there (some x) = true

pub has : String → SentIds → Bool
has id s = if id == "" then false else is_there (get id s.set_of)

-- the writes behind the read of ring[idx]
pub overwrite : String → String → SentIds → SentIds
unfolding set
overwrite id evicted s = record s {
  ring = set s.ring s.idx id;
  set_of = put id tt (if evicted == "" then s.set_of else remove evicted s.set_of);
  idx = (s.idx + 1) % s.limit;
}

-- none is a panic
unfoldable pub add : String → SentIds → Option SentIds
unfolding overwrite get_elem?
add id s =
    if id == ""
    then some s
    else if is_there (get id s.set_of)
    then some s
    else elim (get_elem? s.ring s.idx) [
      | none ↦ none
      | some evicted ↦ some (overwrite id evicted s)
    ]

-- the calls in a row
pub add_all : List String → SentIds → Option SentIds
unfolding add
add_all [] s = some s
add_all (id ∷ ids) s = elim (add id s) [ none ↦ none | some s' ↦ add_all ids s' ]
