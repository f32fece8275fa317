-- ===== src/App/Promotion/Manifest.antt =====
-- The order of the manifest in createSkillVersion and the loop of evaluateDecision, both of
-- internal/app/app.go.
use victoria.Prelude.{
  ℕ, ◌≤◌, String, Bool, true, false, Option, none, some, ◌≡◌, subst, List, [], ◌∷◌, map,
  if◌then◌else◌, Bool-cases, inl, inr, arith,
}
use victoria.Sort.{sort_by, insert_sorted}
use victoria.Domain.{RuleManifest, ValidatedRule, Payload}
use victoria.App.Promotion.{manifest_less, manifest_entry, build_manifest}
use victoria.App.Cases.Decision.{fits, first_match}

-- every rule of the list has the property
abbrev pub Each : (RuleManifest → Type 0) → List RuleManifest → Type 0
Each P [] = Unit
Each P (r ∷ rs) = P r × Each P rs

-- highest priority first
abbrev pub Descending : List RuleManifest → Type 0
Descending [] = Unit
Descending (r ∷ rs) = Each (λ s. s.priority ≤ r.priority) rs × Descending rs

less-true : (a b : RuleManifest) → manifest_less a b ≡ true → b.priority ≤ a.priority
unfolding manifest_less
less-true a b h = ground arith

less-false : (a b : RuleManifest) → manifest_less a b ≡ false → a.priority ≤ b.priority
unfolding manifest_less
less-false a b h = ground arith

Each-weaken :
    (n m : ℕ)
    → n ≤ m
    → (rs : List RuleManifest) → Each (λ s. s.priority ≤ n) rs
    → Each (λ s. s.priority ≤ m) rs
Each-weaken n m h [] e = tt
Each-weaken n m h (r ∷ rs) e = (omega (arith, h, e.0), Each-weaken n m h rs e.1)

module _ (P : RuleManifest → Type 0) where
  Each-insert :
      (r : RuleManifest) (rs : List RuleManifest)
      → P r
      → Each P rs
      → Each P (insert_sorted manifest_less r rs)
  unfolding insert_sorted
  Each-insert r [] p e = (p, tt)
  Each-insert r (s ∷ rs) p e = elim (Bool-cases (manifest_less s r)) [
    | inl h ↦ rw h (e.0, Each-insert r rs p e.1)
    | inr h ↦ rw h (p, e)
  ]

  Each-sort : (rs : List RuleManifest) → Each P rs → Each P (sort_by manifest_less rs)
  unfolding sort_by
  Each-sort [] e = tt
  Each-sort (r ∷ rs) e = Each-insert r (sort_by manifest_less rs) e.0 (Each-sort rs e.1)

Descending-insert :
    (r : RuleManifest) (rs : List RuleManifest)
    → Descending rs
    → Descending (insert_sorted manifest_less r rs)
unfolding insert_sorted
Descending-insert r [] d = (tt, tt)
Descending-insert r (s ∷ rs) d = elim (Bool-cases (manifest_less s r)) [
  | inl h ↦ rw h (
    Each-insert (λ t. t.priority ≤ s.priority) r rs (less-true s r h) d.0,
    Descending-insert r rs d.1,
  )
  | inr h ↦
      rw h ((less-false s r h, Each-weaken s.priority r.priority (less-false s r h) rs d.0), d)
]

Descending-sort : (rs : List RuleManifest) → Descending (sort_by manifest_less rs)
unfolding sort_by
Descending-sort [] = tt
Descending-sort (r ∷ rs) = Descending-insert r (sort_by manifest_less rs) (Descending-sort rs)

module _ (P : RuleManifest → Type 0) where
  Each-of_insert :
      (r : RuleManifest) (rs : List RuleManifest)
      → Each P (insert_sorted manifest_less r rs)
      → P r × Each P rs
  unfolding insert_sorted
  Each-of_insert r [] e = e
  Each-of_insert r (s ∷ rs) e = elim (Bool-cases (manifest_less s r)) [
    | inl h ↦
        let d =
          subst
            (λ (b : Bool). Each P (if b then s ∷ insert_sorted manifest_less r rs else r ∷ s ∷ rs))
            h e in
        let q = Each-of_insert r rs d.1 in (q.0, (d.0, q.1))
    | inr h ↦
        subst
          (λ (b : Bool). Each P (if b then s ∷ insert_sorted manifest_less r rs else r ∷ s ∷ rs)) h
          e
  ]

  Each-of_sort : (rs : List RuleManifest) → Each P (sort_by manifest_less rs) → Each P rs
  unfolding sort_by
  Each-of_sort [] e = tt
  Each-of_sort (r ∷ rs) e =
      let (p, q) = Each-of_insert r (sort_by manifest_less rs) e in (p, Each-of_sort rs q)

module _ (decision_type : String) (payload : Payload) where
  -- the rule that decides fits, and no rule that fits has a higher priority; without one, none fits
  abbrev pub Decides : List RuleManifest → Option RuleManifest → Type 0
  Decides rs none = Each (λ r. fits decision_type payload r ≡ false) rs
  Decides rs (some winner) =
      (fits decision_type payload winner ≡ true)
      × Each (λ r. fits decision_type payload r ≡ true → r.priority ≤ winner.priority) rs

  trivially :
      (n : ℕ) (rs : List RuleManifest)
      → Each (λ s. s.priority ≤ n) rs
      → Each (λ r. fits decision_type payload r ≡ true → r.priority ≤ n) rs
  trivially n [] e = tt
  trivially n (r ∷ rs) e = (λ _. e.0, trivially n rs e.1)

  Decides-skip :
      (r : RuleManifest) (rs : List RuleManifest) (found : Option RuleManifest)
      → fits decision_type payload r ≡ false
      → Decides rs found
      → Decides (r ∷ rs) found
  Decides-skip r rs none h d = (h, d)
  Decides-skip r rs (some winner) h d = (d.0, ((λ k. cc (h, k)), d.1))

  first_match-Decides :
      (rs : List RuleManifest) → Descending rs → Decides rs (first_match decision_type payload rs)
  unfolding first_match
  first_match-Decides [] d = tt
  first_match-Decides (r ∷ rs) d = elim (Bool-cases (fits decision_type payload r)) [
    | inl h ↦ rw h (h, ((λ _. omega arith), trivially r.priority rs d.0))
    | inr h ↦
        rw h
          (Decides-skip r rs (first_match decision_type payload rs) h (first_match-Decides rs d.1))
  ]

  Decides-sort :
      (rs : List RuleManifest) (found : Option RuleManifest)
      → Decides (sort_by manifest_less rs) found
      → Decides rs found
  Decides-sort rs none d = Each-of_sort _ rs d
  Decides-sort rs (some winner) d = (d.0, Each-of_sort _ rs d.1)

  -- A case is decided by a rule of the highest priority among the rules that fit it, whatever the
  -- order in which the store lists them; where the manifest answers no rule, none fits.
  pub first_match-build_manifest :
      (rules : List ValidatedRule)
      → Decides
          (map manifest_entry rules)
          (first_match decision_type payload (build_manifest rules))
  unfolding build_manifest
  first_match-build_manifest rules =
      Decides-sort (map manifest_entry rules) _
        (first_match-Decides _ (Descending-sort (map manifest_entry rules)))
