-- ===== src/Exec/Preserves.antt =====
-- What a method does to its object, as a relation between the object before and after, with one
-- rule for each way to build a method. The relation is reflexive and transitive.
use victoria.Prelude.{
  ◌≡◌, refl, Bool, true, false, Option, none, some, List, [], ◌∷◌, if◌then◌else◌,
}
use victoria.Exec.{
  Error, Result, ok, err, Exec, pure, throw, lift, gets, or_throw, attempt, ignore, skip, throw_if,
  ◌>>=◌, for_each,
}

pub record Preorder {S : Type 0} (R : S → S → Type 0) : Type 0 where
  pub same : (s : S) → R s s
  pub next : (s t u : S) → R s t → R t u → R s u

-- whether `m` succeeds or fails
pub record Preserves {S A : Type 0} (R : S → S → Type 0) (m : Exec S A) : Type 0 where
  pub at : (s : S) → R s (m s).1

module _ {S A : Type 0} {R : S → S → Type 0} (o : Preorder R) where
  pub Preserves-pure : (a : A) → Preserves R (pure {S = S} a)
  unfolding pure
  Preserves-pure a = record { at = λ s. o.same s }

  pub Preserves-throw : (e : Error) → Preserves R (throw {S = S} {A = A} e)
  unfolding throw
  Preserves-throw e = record { at = λ s. o.same s }

  pub Preserves-lift : (r : Result A) → Preserves R (lift {S = S} r)
  unfolding lift
  Preserves-lift r = record { at = λ s. o.same s }

  pub Preserves-gets : (f : S → A) → Preserves R (gets f)
  unfolding gets
  Preserves-gets f = record { at = λ s. o.same s }

  pub Preserves-or_throw : (a : Option A) (e : Error) → Preserves R (or_throw {S = S} a e)
  unfolding or_throw
  Preserves-or_throw none e = record { at = λ s. o.same s }
  Preserves-or_throw (some a) e = record { at = λ s. o.same s }

  pub Preserves-attempt : (m : Exec S A) → Preserves R m → Preserves R (attempt m)
  unfolding attempt
  Preserves-attempt m h = record { at = h.at }

  pub Preserves-ignore : (m : Exec S A) → Preserves R m → Preserves R (ignore m)
  unfolding ignore
  Preserves-ignore m h = record { at = h.at }

  pub Preserves-if :
      (b : Bool) (m n : Exec S A)
      → (b ≡ true → Preserves R m)
      → (b ≡ false → Preserves R n)
      → Preserves R (if b then m else n)
  Preserves-if true m n km kn = km refl
  Preserves-if false m n km kn = kn refl

module _ {S : Type 0} {R : S → S → Type 0} (o : Preorder R) where
  pub Preserves-skip : Preserves R (skip {S = S})
  unfolding skip
  Preserves-skip = record { at = λ s. o.same s }

  pub Preserves-throw_if : (b : Bool) (e : Error) → Preserves R (throw_if {S = S} b e)
  unfolding throw_if
  Preserves-throw_if true e = record { at = λ s. o.same s }
  Preserves-throw_if false e = record { at = λ s. o.same s }

module _ {S A B : Type 0} {R : S → S → Type 0} (o : Preorder R) where
  after :
      (f : A → Exec S B)
      → ((a : A) → Preserves R (f a))
      → (s s' : S) (r : Result A) → R s s'
      → R s (◌>>=◌ (λ _. (r, s')) f s).1
  unfolding ◌>>=◌
  after f pf s s' (ok a) h = o.next s s' _ h ((pf a).at s')
  after f pf s s' (err e) h = h

  pub Preserves-bind :
      (m : Exec S A) (f : A → Exec S B)
      → Preserves R m
      → ((a : A) → Preserves R (f a))
      → Preserves R (m >>= f)
  unfolding ◌>>=◌
  Preserves-bind m f pm pf = record { at = λ s. after f pf s (m s).1 (m s).0 (pm.at s) }

module _ {S A : Type 0} {R : S → S → Type 0} (o : Preorder R) where
  pub Preserves-for_each :
      (xs : List A) (body : A → Exec S (Unit {0}))
      → ((a : A) → Preserves R (body a))
      → Preserves R (for_each xs body)
  unfolding for_each
  Preserves-for_each [] body h = Preserves-skip o
  Preserves-for_each (x ∷ xs) body h =
      Preserves-bind o (body x) (λ _. for_each xs body) (h x) (λ _. Preserves-for_each xs body h)

pub ruleset preserves_rules = (
  Preserves-pure, Preserves-throw, Preserves-lift, Preserves-gets, Preserves-or_throw,
  Preserves-attempt, Preserves-ignore, Preserves-if, Preserves-skip, Preserves-throw_if,
  Preserves-bind, Preserves-for_each,
)
