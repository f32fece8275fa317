-- ===== src/Text/Digits.antt =====
-- The digits that fmt prints of a number: none is lost in trimming.
use Prim.Native.Char.{Char, code}
use Prim.Native.Nat.{◌/◌, ◌%◌}
use Prim.Native.String.{char_at}
use text.Mathlib.TextLemmas.{nil-append, cons-append}
use victoria.Prelude.{
  ℕ, zero, suc, ◌+◌, ◌<◌, ◌≤◌, ◌≡◌, refl, ap, arith, false, ◌==◌, String, join, ltb, Bool-cases,
  inl, inr, eq_iff,
}
use victoria.Text.{cons, is_space, trim_left, trim_right, trim_space, decimal_within, decimal}

abbrev pub digit_char : ℕ → Char
digit_char d = char_at "0123456789" d

pub digit_code : (d : ℕ) → d < 10 → code (digit_char d) ≡ 48 + d
digit_code zero h = refl
digit_code (suc zero) h = refl
digit_code (suc (suc zero)) h = refl
digit_code (suc (suc (suc zero))) h = refl
digit_code (suc (suc (suc (suc zero)))) h = refl
digit_code (suc (suc (suc (suc (suc zero))))) h = refl
digit_code (suc (suc (suc (suc (suc (suc zero)))))) h = refl
digit_code (suc (suc (suc (suc (suc (suc (suc zero))))))) h = refl
digit_code (suc (suc (suc (suc (suc (suc (suc (suc zero)))))))) h = refl
digit_code (suc (suc (suc (suc (suc (suc (suc (suc (suc zero))))))))) h = refl
digit_code (suc (suc (suc (suc (suc (suc (suc (suc (suc (suc d)))))))))) h = absurd (omega arith)

abbrev pub Digits : String → Type 0
Digits String.[] = Unit
Digits (String.◌∷◌ c s) = ((48 ≤ code c) × (code c ≤ 57)) × Digits s

Digits-join : (s t : String) → Digits s → Digits t → Digits (join s t)
Digits-join String.[] t ds dt = rw (nil-append t) dt
Digits-join (String.◌∷◌ c s) t ds dt = rw (cons-append c s t) (ds.0, Digits-join s t ds.1 dt)

last_digit : (n : ℕ) → Digits (cons (digit_char (n % 10)) "")
last_digit n = (omega (arith, digit_code (n % 10) (omega arith)), tt)

decimal_within-Digits : (fuel n : ℕ) → Digits (decimal_within fuel n)
unfolding decimal_within
decimal_within-Digits zero n = tt
decimal_within-Digits (suc fuel) n = elim (Bool-cases (ltb n 10)) [
  | inl e ↦ rw e (last_digit n)
  | inr e ↦ rw e (Digits-join _ _ (decimal_within-Digits fuel (n / 10)) (last_digit n))
]

digit_not_space : (c : Char) → 48 ≤ code c → code c ≤ 57 → is_space c ≡ false
unfolding is_space
digit_not_space c h k = ground arith

trim_left-Digits : (s : String) → Digits s → trim_left is_space s ≡ s
unfolding trim_left
trim_left-Digits String.[] d = refl
trim_left-Digits (String.◌∷◌ c s) d = rw (digit_not_space c d.0.0 d.0.1) refl

trim_right-Digits : (s : String) → Digits s → trim_right is_space s ≡ s
unfolding trim_right
trim_right-Digits String.[] d = refl
trim_right-Digits (String.◌∷◌ c s) d =
    rw (digit_not_space c d.0.0 d.0.1) (ap (cons c) (trim_right-Digits s d.1))

-- a number is printed in digits, and trimming leaves them
pub trim_space-decimal : (n : ℕ) → trim_space (decimal n) ≡ decimal n
unfolding trim_space decimal
trim_space-decimal n =
    rw (trim_left-Digits _ (decimal_within-Digits (suc n) n))
      (trim_right-Digits _ (decimal_within-Digits (suc n) n))

cons-ne-empty : (c : Char) (s : String) → cons c s == "" ≡ false
cons-ne-empty c s = elim (Bool-cases (cons c s == "")) [
  | inl e ↦ cc ((eq_iff (cons c s) "").0 e)
  | inr e ↦ e
]

join-ne-empty : (s : String) (c : Char) → join s (cons c "") == "" ≡ false
join-ne-empty String.[] c = rw (nil-append (cons c "")) (cons-ne-empty c "")
join-ne-empty (String.◌∷◌ d s) c = rw (cons-append d s (cons c "")) (cons-ne-empty d _)

pub decimal-ne-empty : (n : ℕ) → decimal n == "" ≡ false
unfolding decimal decimal_within
decimal-ne-empty n = elim (Bool-cases (ltb n 10)) [
  | inl e ↦ rw e (cons-ne-empty (digit_char (n % 10)) "")
  | inr e ↦ rw e (join-ne-empty _ (digit_char (n % 10)))
]
