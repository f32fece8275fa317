-- ===== src/Whatsapp/Replies/Numbers.antt =====
-- A reply by number: what atoi reads of the digits of a number.
use Prim.Native.Char.{code}
use Prim.Native.Nat.{◌/◌, ◌%◌, ◌^◌}
use text.Mathlib.TextLemmas.{nil-append, cons-append}
use victoria.Prelude.{
  ℕ, zero, suc, ◌+◌, ◌*◌, ◌-◌, ◌<◌, ◌≡◌, refl, ap, ◌∙◌, arith, true, String, join, ltb, Bool-cases,
  inl, inr, none, some, List, length,
}
use victoria.Text.{cons, decimal_within, decimal}
use victoria.Text.Digits.{digit_char, digit_code, trim_space-decimal, decimal-ne-empty}
use victoria.Domain.{ButtonSpec}
use victoria.Whatsapp.Replies.{int_mod, atoi_from, atoi, button_at, in_range, button_for_reply}

atoi_from-join :
    (n : ℕ) (s t : String)
    → atoi_from n (join s t) ≡ elim (atoi_from n s) [ none ↦ none | some m ↦ atoi_from m t ]
unfolding atoi_from
atoi_from-join n String.[] t = rw (nil-append t) refl
atoi_from-join n (String.◌∷◌ c s) t =
    rw (cons-append c s t) (ground (arith, atoi_from-join ((n * 10 + (code c - 48)) % int_mod) s t))

atoi_from-digit :
    (m n : ℕ) → atoi_from m (cons (digit_char (n % 10)) "") ≡ some ((m * 10 + n % 10) % int_mod)
unfolding atoi_from
atoi_from-digit m n =
    let e : code (digit_char (n % 10)) ≡ 48 + n % 10 = digit_code (n % 10) (omega arith) in
    ground (arith, e)

atoi_from-decimal :
    (fuel n : ℕ) → n < fuel → atoi_from 0 (decimal_within fuel n) ≡ some (n % int_mod)
unfolding decimal_within
atoi_from-decimal zero n h = absurd (omega arith)
atoi_from-decimal (suc fuel) n h = elim (Bool-cases (ltb n 10)) [
  | inl e ↦ rw e (atoi_from-digit 0 n ∙ ap some (let k : n < 10 = ground arith in omega arith))
  | inr e ↦ rw e (
      atoi_from-join 0 (decimal_within fuel (n / 10)) _
      ∙ rw (atoi_from-decimal fuel (n / 10) (ground arith))
          (atoi_from-digit ((n / 10) % int_mod) n ∙ ap some (omega arith)))
]

-- The text that fmt prints for a number is read as the number modulo 2^64, an int's width: below 2^64
-- as the number itself, from there on as a smaller one and not as an error.
pub atoi-decimal : (n : ℕ) → atoi (decimal n) ≡ some (n % 2 ^ 64)
unfolding atoi decimal
atoi-decimal n = atoi_from-decimal (suc n) n (omega arith)

-- The number of a button, counted from 1, picks that button: for every list of fewer than 2^63
-- buttons.
pub button_for_reply-decimal :
    (k : ℕ) (buttons : List ButtonSpec)
    → k < length buttons
    → length buttons < 2 ^ 63
    → button_for_reply (decimal (k + 1)) buttons ≡ button_at buttons k
unfolding button_for_reply in_range
button_for_reply-decimal k buttons h small =
    let e : atoi (decimal (k + 1)) ≡ some (k + 1) = atoi-decimal (k + 1) ∙ ap some (omega arith) in
    rw (trim_space-decimal (k + 1), decimal-ne-empty (k + 1), e)
      (let inside : in_range (some (k + 1)) (length buttons) ≡ true = ground arith in
        rw inside (let e' : k + 1 - 1 ≡ k = omega arith in rw e' refl))
