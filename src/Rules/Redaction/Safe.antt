-- ===== src/Rules/Redaction/Safe.antt =====
-- redactAggregateConditions of internal/app/rules.go: the values that come out.
use victoria.Prelude.{
  String, Bool, true, false, ◌≡◌, ◌⊎◌, refl, sym, subst, ◌∙◌, ◌&&◌, not, ◌==◌, ◌||◌, eq_iff, List,
  [], ◌∷◌, Bool-cases, inl, inr,
}
use victoria.Text.{to_lower, contains_text}
use victoria.Domain.{text, sprint, Condition}
use victoria.Rules.Redaction.{allowed, looks_like_free_text, redact, redact_aggregate_conditions}

-- the condition is about the name of a customer
abbrev pub names_customer : Condition → Bool
names_customer c =
    contains_text (to_lower c.field) "client_name"
    || contains_text (to_lower c.field) "customer_name"

-- the value as it is printed has no at sign and no blank, and that of a customer's name is one of the
-- two marks
abbrev pub IsSafe : Condition → Type 0
IsSafe c =
    (contains_text (sprint c.value) "@" ≡ false)
    × (contains_text (sprint c.value) " " ≡ false)
    × (names_customer c ≡ true
        → (c.value ≡ text "<email>") ⊎ (c.value ≡ text "<quarantined:freetext>"))

abbrev pub AllSafe : List Condition → Type 0
AllSafe [] = Unit
AllSafe (c ∷ cs) = IsSafe c × AllSafe cs

-- a word without a blank has none
one_word :
    (value word : String)
    → contains_text word " " ≡ false
    → (value == word) ≡ true
    → contains_text value " " ≡ false
one_word value word h e =
    subst (λ (t : String). contains_text t " " ≡ false) (sym ((eq_iff value word).0 e)) h

either : (a b : Bool) {P : Type 0} → (a ≡ true → P) → (b ≡ true → P) → (a || b) ≡ true → P
either true b f g h = f refl
either false b f g h = g h

allowed-blank : (value : String) → allowed value ≡ true → contains_text value " " ≡ false
unfolding contains_text
allowed-blank value = either _ _ (one_word value "true" refl) (
    either _ _ (one_word value "false" refl) (
      either _ _ (one_word value "new" refl) (
        either _ _ (one_word value "repeat" refl) (
          either _ _ (one_word value "commercial" refl) (
            either _ _ (one_word value "residential" refl)
              (either _ _ (one_word value "AU" refl) (one_word value "SG" refl)))))))

free_text-eq-blank : (value : String) → looks_like_free_text value ≡ contains_text value " "
unfolding contains_text looks_like_free_text
free_text-eq-blank value = elim (Bool-cases (value == "")) [
  | inl e ↦ rw e (sym (one_word value "" refl e))
  | inr e ↦ elim (Bool-cases (allowed value)) [
    | inl a ↦ rw e (rw a (sym (allowed-blank value a)))
    | inr a ↦ rw e (rw a refl)
  ]
]

-- the value is not taken for an address, and it is that of a customer's name or it has a blank
abbrev pub is_flagged : Condition → Bool
is_flagged c =
    not (contains_text (sprint c.value) "@")
    && (names_customer c || contains_text (sprint c.value) " ")

abbrev pub any_flagged : List Condition → Bool
any_flagged [] = false
any_flagged (c ∷ cs) = is_flagged c || any_flagged cs

redact-IsSafe : (c : Condition) → IsSafe (redact c).condition
unfolding redact contains_text sprint
redact-IsSafe c = elim (Bool-cases (contains_text (sprint c.value) "@")) [
  | inl e ↦ rw e (refl, refl, λ _. inl refl)
  | inr e ↦ elim (Bool-cases (names_customer c)) [
    | inl f ↦ rw e (rw f (refl, refl, λ _. inr refl))
    | inr f ↦ elim (Bool-cases (looks_like_free_text (sprint c.value))) [
      | inl g ↦ rw e (rw f (rw g (refl, refl, λ _. inr refl)))
      | inr g ↦ rw e (rw f (rw g (e, sym (free_text-eq-blank _) ∙ g, λ n. cc (n, f))))
    ]
  ]
]

redact-eq-flagged : (c : Condition) → (redact c).quarantine ≡ is_flagged c
unfolding redact contains_text
redact-eq-flagged c = elim (Bool-cases (contains_text (sprint c.value) "@")) [
  | inl e ↦ rw e refl
  | inr e ↦ elim (Bool-cases (names_customer c)) [
    | inl f ↦ rw e (rw f refl)
    | inr f ↦ elim (Bool-cases (looks_like_free_text (sprint c.value))) [
      | inl g ↦ rw e (rw f (rw g (sym g ∙ free_text-eq-blank _)))
      | inr g ↦ rw e (rw f (rw g (sym g ∙ free_text-eq-blank _)))
    ]
  ]
]

-- No condition of an aggregate has a value with an at sign or with a blank, and the value of one
-- about the name of a customer is one of the two marks that redaction writes, whatever the tenants'
-- corrections had put into it. The aggregate is to be held back exactly if a value that is not taken
-- for an address was that of a customer's name or had a blank.
pub redact_aggregate_conditions-safe :
    (cs : List Condition)
    → AllSafe (redact_aggregate_conditions cs).conditions
      × ((redact_aggregate_conditions cs).quarantine ≡ any_flagged cs)
unfolding redact_aggregate_conditions
redact_aggregate_conditions-safe [] = (tt, refl)
redact_aggregate_conditions-safe (c ∷ cs) =
    let (safe, flag) = redact_aggregate_conditions-safe cs in
    ((redact-IsSafe c, safe), rw (redact-eq-flagged c, flag) refl)
