-- ===== src/Domain/Confidence.antt =====
-- internal/domain/confidence.go, over the float64 operations that the hardware and package math give.
use victoria.Prelude.{
  ℕ, ◌+◌, ◌-◌, String, Bool, false, List, [], ◌∷◌, ◌==◌, ◌&&◌, ◌||◌, if◌then◌else◌, ltb, leb, eqb,
  length,
}
use victoria.Domain.Names.{Time, Float64}

pub record Floats : Type 0 where
  -- the float64 nearest to a decimal literal
  pub literal : String → Float64
  pub of_int : ℕ → Float64
  -- time.Duration.Hours
  pub hours : ℕ → Float64
  pub add : Float64 → Float64 → Float64
  pub sub : Float64 → Float64 → Float64
  pub mul : Float64 → Float64 → Float64
  pub div : Float64 → Float64 → Float64
  pub neg : Float64 → Float64
  pub sqrt : Float64 → Float64
  pub exp : Float64 → Float64
  pub max : Float64 → Float64 → Float64
  pub min : Float64 → Float64 → Float64
  -- a < b and a >= b, which both are false where one is a NaN
  pub less : Float64 → Float64 → Bool
  pub at_least : Float64 → Float64 → Bool

abbrev pub default_min_evidence_count : ℕ
default_min_evidence_count = 3

-- what `distinct` keeps: the texts that are not empty, each once
distinct_from : List String → List String → List String
distinct_from seen [] = seen
distinct_from seen (v ∷ vs) = distinct_from (if v == "" || has v seen then seen else v ∷ seen) vs
  where
    has : String → List String → Bool
    has v [] = false
    has v (w ∷ ws) = w == v || has v ws

module _ (floats : Floats) where
  open floats use {
    literal, of_int, hours, add, sub, mul, div, neg, sqrt, exp, max, min, less, at_least,
  }

  abbrev zero_float : Float64
  zero_float = of_int 0

  abbrev one_float : Float64
  one_float = of_int 1

  clamp01 : Float64 → Float64
  clamp01 value =
      if less value zero_float
      then zero_float
      else if less one_float value
      then one_float
      else value

  wilson_lower : ℕ → ℕ → Float64
  unfolding clamp01
  wilson_lower evidence_count total_count =
      if leb evidence_count 0 || leb total_count 0 then zero_float else bound
    where
      n : Float64
      n = of_int total_count

      p_hat : Float64
      p_hat = div (of_int evidence_count) n

      z : Float64
      z = literal "1.28"

      z2 : Float64
      z2 = mul z z

      denominator : Float64
      denominator = add one_float (div z2 n)

      centre : Float64
      centre = add p_hat (div z2 (mul (of_int 2) n))

      margin : Float64
      margin =
          mul z (
            sqrt
              (add (div (mul p_hat (sub one_float p_hat)) n) (div z2 (mul (mul (of_int 4) n) n))))

      bound : Float64
      bound = clamp01 (div (sub centre margin) denominator)

  recency_factor : Time → Time → Float64
  recency_factor now last_seen_at =
      if eqb last_seen_at 0 || ltb now last_seen_at
      then one_float
      else max (literal "0.1")
          (exp (div (neg (div (hours (now - last_seen_at)) (of_int 24))) (literal "30.0")))

  -- `if count == 0 { count = 1 }` and then float64(count-1)
  abbrev extra : ℕ → Float64
  extra count = of_int (count - 1)

  scope_consistency_factor : List String → List String → Float64
  unfolding distinct_from
  scope_consistency_factor source_case_run_ids source_tenant_ids = min one_float (
      add
        (add (literal "0.8")
          (mul (literal "0.1") (extra (length (distinct_from [] source_case_run_ids)))))
        (mul (literal "0.05") (extra (length (distinct_from [] source_tenant_ids)))))

  unfoldable pub candidate_confidence : Time → ℕ → ℕ → List String → List String → Time → Float64
  unfolding clamp01 wilson_lower recency_factor scope_consistency_factor
  candidate_confidence now evidence contradicting source_case_run_ids source_tenant_ids
        last_seen_at =
      clamp01 (
        mul
          (mul (wilson_lower evidence (evidence + contradicting)) (recency_factor now last_seen_at))
          (scope_consistency_factor source_case_run_ids source_tenant_ids))

  unfoldable pub candidate_status : Float64 → ℕ → ℕ → String
  candidate_status confidence evidence_count contradicting_count =
      if at_least confidence (literal "0.55")
        && (leb default_min_evidence_count evidence_count && eqb contradicting_count 0)
      then "under_review"
      else "candidate"
