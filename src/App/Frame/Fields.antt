-- ===== src/App/Frame/Fields.antt =====
-- The parts of the store that no step of the engine writes: what a projection of the store that is
-- blind to the written parts keeps through every method.
use victoria.Prelude.{
  String, ◌≡◌, ◌⊎◌, ◌&&◌, not, refl, ap, ◌∙◌, ◌==◌, Option-cases, Bool-cases, inl, inr,
}
use victoria.Exec.{Error, Result, ok, err}
use victoria.GoMap.{GoMap, get}
use victoria.Domain.{
  OutboundMessage, OutboundToCustomer, Correction, AuditEvent, CaseRun, DecisionPoint,
  RuleCandidate, ChannelBinding,
}
use victoria.Memory.{Store, triple_key}
use victoria.Memory.Cases.{update_decision_point_status, update_case_run_status}
use victoria.Memory.Customers.{upsert_outbound_to_customer, no_outbound, or_zero}
use victoria.Memory.Learning.{create_correction, save_candidate}
use victoria.App.{Env, World}
use victoria.App.Core.{in_store, new_id}
use victoria.App.Core.Laws.{audit-frame}
use victoria.App.Outbound.{adapter_send}
use victoria.App.Frame.{Frame}

-- the projection does not look at what the steps write
pub record IsBlind {X : Type 0} (part : Store → X) : Type 0 where
  pub to_log :
      (s : Store) (x : GoMap AuditEvent) (y : GoMap String)
      → part (record s { audit_events = x; audit_by_key = y }) ≡ part s
  pub to_decisions :
      (s : Store) (x : GoMap DecisionPoint) → part (record s { decision_pts = x }) ≡ part s
  pub to_runs : (s : Store) (x : GoMap CaseRun) → part (record s { case_runs = x }) ≡ part s
  pub to_out :
      (s : Store) (x : GoMap OutboundToCustomer) (y : GoMap String)
      → part (record s { customer_out = x; out_by_key = y }) ≡ part s
  pub to_corrections :
      (s : Store) (x : GoMap Correction) (y : GoMap String)
      → part (record s { corrections = x; correction_key = y }) ≡ part s
  pub to_candidates :
      (s : Store) (x : GoMap RuleCandidate) → part (record s { candidates = x }) ≡ part s

-- the part of the store is the same
abbrev pub SamePart : {X : Type 0} → (Store → X) → World → World → Type 0
SamePart part w v = part v.store ≡ part w.store

abbrev pub bindings_of : Store → GoMap ChannelBinding
bindings_of s = s.bindings

pub bindings_of-IsBlind : IsBlind bindings_of
bindings_of-IsBlind = record {
  to_log = λ s x y. refl;
  to_decisions = λ s x. refl;
  to_runs = λ s x. refl;
  to_out = λ s x y. refl;
  to_corrections = λ s x y. refl;
  to_candidates = λ s x. refl;
}

decision-frame :
    (a b c : String) (s : Store)
    → (update_decision_point_status a b c s).1
      ≡ record s { decision_pts = (update_decision_point_status a b c s).1.decision_pts }
unfolding update_decision_point_status
decision-frame a b c s = elim (Option-cases (get b s.decision_pts)) [
  | inl h ↦ rw (h, update_decision_point_status) refl
  | inr (r, h) ↦
      rw (h, update_decision_point_status)
        (elim (Bool-cases (r.tenant_id == a)) [ inl e ↦ rw e refl | inr e ↦ rw e refl ])
]

run-frame :
    (a b c : String) (s : Store)
    → (update_case_run_status a b c s).1
      ≡ record s { case_runs = (update_case_run_status a b c s).1.case_runs }
unfolding update_case_run_status
run-frame a b c s = elim (Option-cases (get b s.case_runs)) [
  | inl h ↦ rw (h, update_case_run_status) refl
  | inr (r, h) ↦
      rw (h, update_case_run_status)
        (elim (Bool-cases (r.tenant_id == a)) [ inl e ↦ rw e refl | inr e ↦ rw e refl ])
]

correction-frame :
    (c : Correction) (s : Store)
    → (create_correction c s).1 ≡ record s {
      corrections = (create_correction c s).1.corrections;
      correction_key = (create_correction c s).1.correction_key;
    }
unfolding create_correction
correction-frame c s = elim (Option-cases (get c.idempotency_key s.correction_key)) [
  | inl h ↦ rw (h, create_correction) refl
  | inr (r, h) ↦ rw (h, create_correction) refl
]

out-frame :
    (o : OutboundToCustomer) (s : Store)
    → (upsert_outbound_to_customer o s).1 ≡ record s {
      customer_out = (upsert_outbound_to_customer o s).1.customer_out;
      out_by_key = (upsert_outbound_to_customer o s).1.out_by_key;
    }
unfolding upsert_outbound_to_customer
out-frame o s =
    elim (Option-cases (get (triple_key o.tenant_id o.case_run_id o.body_hash) s.out_by_key)) [
      | inl h ↦ rw (h, upsert_outbound_to_customer) refl
      | inr (id, h) ↦
          rw (h, upsert_outbound_to_customer)
            (elim (Bool-cases (
              not ((or_zero no_outbound (get id s.customer_out)).status == "sent")
              && o.status == "sent")) [ inl e ↦ rw e refl | inr e ↦ rw e refl ])
    ]

Result-cases : {A : Type 0} (r : Result A) → ((a : A) × (r ≡ ok a)) ⊎ ((e : Error) × (r ≡ err e))
Result-cases (ok a) = inl (a, refl)
Result-cases (err e) = inr (e, refl)

send-frame :
    (env : Env) (channel : String) (msg : OutboundMessage) (w : World)
    → (adapter_send env channel msg w).1.store ≡ w.store
unfolding adapter_send
send-frame env channel msg w = elim (Result-cases (env.send w.sends_made channel msg)) [
  | inl (a, h) ↦ rw (h, adapter_send) refl
  | inr (e, h) ↦ rw (h, adapter_send) refl
]

pub Frame-of_part :
    (env : Env) {X : Type 0} (part : Store → X) → IsBlind part → Frame env (SamePart part)
unfolding in_store new_id save_candidate
Frame-of_part env part b = record {
  order = record { same = λ w. refl; next = λ w v u p q. q ∙ p };
  audit_kept = λ a1 a2 a3 a4 a5 a6 related payload keys. record {
    at = λ w.
        ap (λ (v : World). part v.store) (audit-frame env a1 a2 a3 a4 a5 a6 related payload keys w)
        ∙ b.to_log w.store _ _;
  };
  new_id_kept = λ prefix. record { at = λ w. refl };
  send_kept = λ channel msg. record { at = λ w. ap part (send-frame env channel msg w) };
  decision_kept = λ t d st. record {
    at = λ w. ap part (decision-frame t d st w.store) ∙ b.to_decisions w.store _;
  };
  run_kept =
      λ t r st. record { at = λ w. ap part (run-frame t r st w.store) ∙ b.to_runs w.store _ };
  out_kept = λ o. record { at = λ w. ap part (out-frame o w.store) ∙ b.to_out w.store _ _ };
  correction_kept =
      λ c. record { at = λ w. ap part (correction-frame c w.store) ∙ b.to_corrections w.store _ _ };
  candidate_kept = λ c. record { at = λ w. b.to_candidates w.store _ };
}
