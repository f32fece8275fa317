-- ===== src/GoMap/Laws.antt =====
-- Laws of the map operations, in the form that has no side condition.
use victoria.Prelude.{
  suc, ◌+◌, ◌≤◌, String, ◌≡◌, refl, none, some, [], ◌∷◌, Bool, true, false, arith, Bool-cases, inl,
  inr, ◌==◌, eq_iff, eq_refl, if◌then◌else◌,
}
use victoria.GoMap.{GoMap, get, put, remove, values, update_where, count}

module _ {ℓ} {V : Type ℓ} where
  pub get-put :
      (k j : String) (v : V) (m : GoMap V)
      → get j (put k v m) ≡ (if k == j then some v else get j m)
  unfolding get put
  get-put k j v [] = refl
  get-put k j v ((i, w) ∷ m) = ground (arith, eq_iff k j, eq_iff i k, eq_iff i j, get-put k j v m)

  pub get-put_self : (k : String) (v : V) (m : GoMap V) → get k (put k v m) ≡ some v
  get-put_self k v m = simp (get-put, eq_refl)

  pub get-remove :
      (k j : String) (m : GoMap V) → get j (remove k m) ≡ (if k == j then none else get j m)
  unfolding get remove
  get-remove k j [] = ground arith
  get-remove k j ((i, w) ∷ m) = ground (arith, eq_iff k j, eq_iff i k, eq_iff i j, get-remove k j m)

  pub get-update_where :
      (p : V → Bool) (f : V → V) (k : String) (m : GoMap V)
      → get k (update_where p f m)
        ≡ elim (get k m) [ none ↦ none | some v ↦ some (if p v then f v else v) ]
  unfolding get update_where
  get-update_where p f k [] = refl
  get-update_where p f k ((j, v) ∷ m) = ground (arith, get-update_where p f k m)

-- Every value of the map has the property, at its key.
abbrev pub All {ℓ κ} : {V : Type ℓ} → (String → V → Type κ) → GoMap V → Type κ
All P [] = Unit
All P ((k, v) ∷ m) = P k v × All P m

module _ {ℓ κ} {V : Type ℓ} (P : String → V → Type κ) where
  pub All-get : (k : String) (v : V) (m : GoMap V) → All P m → get k m ≡ some v → P k v
  unfolding get
  All-get k v [] h e = cc
  All-get k v ((j, w) ∷ m) h e = ground (arith, eq_iff j k, All-get k v m h.1)

  pub All-put : (k : String) (v : V) (m : GoMap V) → P k v → All P m → All P (put k v m)
  unfolding put
  All-put k v [] p h = (p, tt)
  All-put k v ((j, w) ∷ m) p h = ground (arith, All-put k v m p h.1)

  pub All-remove : (k : String) (m : GoMap V) → All P m → All P (remove k m)
  unfolding remove
  All-remove k [] h = h
  All-remove k ((j, w) ∷ m) h = ground (arith, All-remove k m h.1)

  pub All-update_where :
      (p : V → Bool) (f : V → V) (m : GoMap V)
      → ((k : String) (v : V) → P k v → P k (f v))
      → All P m
      → All P (update_where p f m)
  unfolding update_where
  All-update_where p f [] s h = h
  All-update_where p f ((j, w) ∷ m) s h = (ground (arith, s j w h.0), All-update_where p f m s h.1)

  -- what holds of every value that the test leaves alone and of every value that was changed
  pub All-update_where_split :
      (p : V → Bool) (f : V → V) (m : GoMap V)
      → ((k : String) (v : V) → p v ≡ true → P k (f v))
      → ((k : String) (v : V) → p v ≡ false → P k v)
      → All P (update_where p f m)
  unfolding update_where
  All-update_where_split p f [] s t = tt
  All-update_where_split p f ((j, w) ∷ m) s t = (
    elim (Bool-cases (p w)) [ inl e ↦ rw e (s j w e) | inr e ↦ rw e (t j w e) ],
    All-update_where_split p f m s t,
  )

module _ {ℓ} {V : Type ℓ} (p : V → Bool) where
  pub count-put :
      (k : String) (v : V) (m : GoMap V)
      → count p (values (put k v m)) ≤ (if p v then 1 else 0) + count p (values m)
  unfolding put values count
  count-put k v [] = ground arith
  count-put k v ((j, w) ∷ m) = ground (arith, count-put k v m)

  pub count-remove : (k : String) (m : GoMap V) → count p (values (remove k m)) ≤ count p (values m)
  unfolding remove values count
  count-remove k [] = ground arith
  count-remove k ((j, w) ∷ m) = ground (arith, count-remove k m)

  -- A deletion of a key at which a counted value stands takes it away.
  pub count-remove_hit :
      (k : String) (v : V) (m : GoMap V)
      → get k m ≡ some v
      → p v ≡ true
      → suc (count p (values (remove k m))) ≤ count p (values m)
  unfolding get remove values count
  count-remove_hit k v [] e h = cc
  count-remove_hit k v ((j, w) ∷ m) e h = ground (arith, count-remove k m, count-remove_hit k v m)
