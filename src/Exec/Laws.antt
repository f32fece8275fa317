-- ===== src/Exec/Laws.antt =====
-- How a block goes on behind a method that succeeded, and behind one that failed.
use victoria.Prelude.{◌≡◌, refl}
use victoria.Exec.{Error, Result, ok, err, Exec, ◌>>=◌}

module _ {S A B : Type 0} where
  bind_from :
      (f : A → Exec S B) (r : Result A) (s' : S) {a : A}
      → r ≡ ok a
      → ◌>>=◌ (λ (s : S). (r, s')) f s' ≡ f a s'
  unfolding ◌>>=◌
  bind_from f r s' e = rw e

  pub >>=-ok :
      (m : Exec S A) (f : A → Exec S B) (s : S) {a : A} → (m s).0 ≡ ok a → (m >>= f) s ≡ f a (m s).1
  unfolding ◌>>=◌
  >>=-ok m f s e = bind_from f (m s).0 (m s).1 e

  pub >>=-err :
      (m : Exec S A) (f : A → Exec S B) (s : S) {e : Error}
      → (m s).0 ≡ err e
      → (m >>= f) s ≡ (err e, (m s).1)
  unfolding ◌>>=◌
  >>=-err m f s {e} h = go (m s).0 h
    where
      go : (r : Result A) → r ≡ err e → ◌>>=◌ (λ (_ : S). (r, (m s).1)) f s ≡ (err e, (m s).1)
      go r h = rw h

  pub >>=-inv :
      (m : Exec S A) (f : A → Exec S B) (s : S) {b : B}
      → ((m >>= f) s).0 ≡ ok b
      → (a : A) × ((m s).0 ≡ ok a) × ((f a (m s).1).0 ≡ ok b)
  unfolding ◌>>=◌
  >>=-inv m f s {b} h = go (m s).0 refl h
    where
      go :
          (r : Result A)
          → (m s).0 ≡ r
          → (◌>>=◌ (λ (_ : S). (r, (m s).1)) f s).0 ≡ ok b
          → (a : A) × ((m s).0 ≡ ok a) × ((f a (m s).1).0 ≡ ok b)
      go (ok a) e k = (a, e, k)
      go (err x) e k = cc

  -- a block that succeeds went through its first method, and goes on behind it
  pub >>=-through :
      (m : Exec S A) (f : A → Exec S B) (s : S) {b : B}
      → ((m >>= f) s).0 ≡ ok b
      → (a : A) × ((m s).0 ≡ ok a) × ((m >>= f) s ≡ f a (m s).1) × ((f a (m s).1).0 ≡ ok b)
  >>=-through m f s h = let (a, e, k) = >>=-inv m f s h in (a, e, >>=-ok m f s e, k)

  -- what holds of the state behind a block: it holds where its first method fails, and behind the
  -- rest where that succeeds
  pub >>=-state :
      (P : S → Type 0) (m : Exec S A) (f : A → Exec S B) (s : S)
      → ((a : A) → (m s).0 ≡ ok a → P (f a (m s).1).1)
      → ((e : Error) → (m s).0 ≡ err e → P (m s).1)
      → P ((m >>= f) s).1
  unfolding ◌>>=◌
  >>=-state P m f s on_ok on_err = go (m s).0 on_ok on_err
    where
      go :
          (r : Result A)
          → ((a : A) → r ≡ ok a → P (f a (m s).1).1)
          → ((e : Error) → r ≡ err e → P (m s).1)
          → P (◌>>=◌ (λ (_ : S). (r, (m s).1)) f s).1
      go (ok a) on_ok on_err = on_ok a refl
      go (err e) on_ok on_err = on_err e refl
