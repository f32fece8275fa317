-- ===== src/App/Gateway/Followups/Turns.antt =====
-- SetPendingFollowupAction and ConsumePendingFollowup of internal/app/gateway.go, one after the other.
use victoria.Prelude.{
  ℕ, ◌-◌, String, true, false, ◌≡◌, refl, ap, ◌∙◌, eq_refl, ◌==◌, none, if◌then◌else◌, ltb,
  Bool-cases, inl, inr,
}
use victoria.Exec.{ok}
use victoria.GoMap.{get, remove}
use victoria.GoMap.Laws.{get-put, get-put_self, get-remove}
use victoria.Domain.{ActionButton, valid_action}
use victoria.App.{World}
use victoria.App.Gateway.Followups.{
  followup_ttl, or_wrong_action, Consumed, nothing_pending, set_pending_followup_action,
  consume_pending_followup,
}

-- what a consumption finds after this time
abbrev pub asked : String → ActionButton → ℕ → Consumed
asked packet_id action waited =
    if ltb followup_ttl waited
    then nothing_pending
    else record { packet_id = packet_id; action = or_wrong_action action; found = true }

or_wrong_action_twice :
    (action : ActionButton) → or_wrong_action (or_wrong_action action) ≡ or_wrong_action action
unfolding valid_action
or_wrong_action_twice action = elim (Bool-cases (valid_action action)) [
  | inl e ↦ rw e (rw e refl)
  | inr e ↦ rw e refl
]

module _ (tenant_id packet_id : String) (action : ActionButton) (w : World) (later : ℕ) where
  -- the world after the follow-up was set, at a later time
  abbrev pub next_turn : World
  next_turn = record (set_pending_followup_action tenant_id packet_id action w).1 { now = later }

  -- A follow-up that was set is what the next consumption for the tenant gives back, with the packet
  -- and the button that were set (wrong_action for a button that is none), unless more than the
  -- time to live has passed: then it gives back that nothing is pending. Either way nothing is
  -- pending for the tenant after it, and what is pending for other tenants is untouched.
  pub consume-set :
      ((consume_pending_followup tenant_id next_turn).0
        ≡ ok (asked packet_id action (later - w.now)))
      × ((get tenant_id (consume_pending_followup tenant_id next_turn).1.pending_followups ≡ none)
          × ((other : String)
              → (tenant_id == other) ≡ false
              → get other (consume_pending_followup tenant_id next_turn).1.pending_followups
                ≡ get other w.pending_followups))
  unfolding consume_pending_followup set_pending_followup_action
  consume-set =
      rw
        (
          get-put_self tenant_id
              (record {
                packet_id = packet_id;
                action = or_wrong_action action;
                started_at = w.now;
              })
              w.pending_followups,
          consume_pending_followup,
        )
        (elim (Bool-cases (ltb followup_ttl (later - w.now))) [
          | inl e ↦ rw e (refl, (cleared, others))
          | inr e ↦ rw e (
            ap
                (λ (a : ActionButton).
                  ok (record { packet_id = packet_id; action = a; found = true }))
                (or_wrong_action_twice action),
            (cleared, others),
          )
        ])
    where
      cleared : get tenant_id (remove tenant_id (next_turn.pending_followups)) ≡ none
      cleared =
          get-remove tenant_id tenant_id next_turn.pending_followups ∙ rw (eq_refl tenant_id) refl

      others :
          (other : String)
          → (tenant_id == other) ≡ false
          → get other (remove tenant_id (next_turn.pending_followups))
            ≡ get other w.pending_followups
      others other h =
          get-remove tenant_id other next_turn.pending_followups
          ∙ rw h (get-put tenant_id other _ w.pending_followups ∙ rw h refl)
