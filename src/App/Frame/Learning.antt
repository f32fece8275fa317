-- ===== src/App/Frame/Learning.antt =====
-- What an operator's signal does keeps what the steps keep: an approval with the reply behind it, and
-- a correction with what is learned from it.
use victoria.Prelude.{
  String, ◌≡◌, refl, List, ◌==◌, Option, some, none, Option-cases, Bool-cases, inl, inr,
}
use victoria.Exec.{Result, ok, err}
use victoria.Exec.Preserves.{Preserves, preserves_rules, Preserves-lift, Preserves-bind}
use victoria.GoMap.{get, first, values}
use victoria.Domain.{
  ChannelBinding, CaseRun, Correction, DecisionPoint, Condition, RuleCandidate,
  ApprovalSignalEnvelope, Time, OutboundToCustomer,
}
use victoria.Memory.{Store}
use victoria.Memory.Cases.{get_case_run, get_decision_point}
use victoria.Memory.Audit.{approval_audit_id, is_approval}
use victoria.Memory.Learning.{list_candidates_by_conditions}
use victoria.App.{Env, World}
use victoria.App.Core.{in_store}
use victoria.App.Frame.{Frame, Preserves-read}
use victoria.App.Frame.Sending.{
  clock_kept, binding_kept, send_notification_kept, send_receipt_kept, send_whatsapp_kept,
}
use victoria.App.Candidates.Merge.{
  deliver_draft, draft_for_binding, deliver_correction_draft_if_possible, parse_failed, contradict,
  tell, create_candidate, add_evidence, merge_into, merge_rule, merge_candidate,
}
use victoria.App.Signals.{persist_approval, persist_correction, settle, learn_correction}
use victoria.App.Signals.Reply.{
  draft_to_operator, send_to_customer, reply_to_customer, reply_with_approval,
  send_approved_customer_reply,
}

run_read : (t c : String) (s : Store) → (get_case_run t c s).1 ≡ s
unfolding get_case_run
run_read t c s = elim (Option-cases (get c s.case_runs)) [
  | inl h ↦ rw (h, get_case_run) refl
  | inr (r, h) ↦
      rw (h, get_case_run)
        (elim (Bool-cases (r.tenant_id == t)) [ inl e ↦ rw e refl | inr e ↦ rw e refl ])
]

point_read : (t c : String) (s : Store) → (get_decision_point t c s).1 ≡ s
unfolding get_decision_point
point_read t c s = elim (Option-cases (get c s.decision_pts)) [
  | inl h ↦ rw (h, get_decision_point) refl
  | inr (r, h) ↦
      rw (h, get_decision_point)
        (elim (Bool-cases (r.tenant_id == t)) [ inl e ↦ rw e refl | inr e ↦ rw e refl ])
]

approval_read : (t c d : String) (s : Store) → (approval_audit_id t c d s).1 ≡ s
unfolding approval_audit_id
approval_read t c d s = elim (Option-cases (first (is_approval t c d) (values s.audit_events))) [
  | inl h ↦ rw (h, approval_audit_id) refl
  | inr (r, h) ↦ rw (h, approval_audit_id) refl
]

siblings_read : (t w d h : String) (s : Store) → (list_candidates_by_conditions t w d h s).1 ≡ s
unfolding list_candidates_by_conditions
siblings_read t w d h s = refl

module _ {env : Env} {R : World → World → Type 0} (f : Frame env R) where
  run_found_kept : (t c : String) → Preserves R (in_store (get_case_run t c))
  run_found_kept t c = Preserves-read f.order (get_case_run t c) (run_read t c)

  point_found_kept : (t c : String) → Preserves R (in_store (get_decision_point t c))
  point_found_kept t c = Preserves-read f.order (get_decision_point t c) (point_read t c)

  approval_found_kept : (t c d : String) → Preserves R (in_store (approval_audit_id t c d))
  approval_found_kept t c d = Preserves-read f.order (approval_audit_id t c d) (approval_read t c d)

  siblings_kept :
      (t w d h : String) → Preserves R (in_store (list_candidates_by_conditions t w d h))
  siblings_kept t w d h =
      Preserves-read f.order (list_candidates_by_conditions t w d h) (siblings_read t w d h)

  draft_kept :
      (t c : String) (run : CaseRun) (b : ChannelBinding)
      → Preserves R (draft_to_operator env t c run b)
  unfolding draft_to_operator
  draft_kept t c run b = search (preserves_rules, f.order, f.audit_kept, send_whatsapp_kept f)

  sent_kept :
      (t c a r b h : String) (run : CaseRun) (binding : ChannelBinding) (out : OutboundToCustomer)
      → Preserves R (send_to_customer env t c a r b h run binding out)
  unfolding send_to_customer
  sent_kept t c a r b h run binding out =
      Preserves-bind f.order _ _ (send_receipt_kept f _ _) (λ receipt.
        Preserves-bind f.order _ _ (clock_kept f) (λ now.
          Preserves-bind f.order _ _ (f.out_kept _)
            (λ stored. search (preserves_rules, f.order, f.audit_kept))))

  to_customer_kept :
      (t c : String) (run : CaseRun) (b : ChannelBinding) (a : String)
      → Preserves R (reply_to_customer env t c run b a)
  unfolding reply_to_customer
  to_customer_kept t c run b a =
      search (preserves_rules, f.order, f.new_id_kept, f.out_kept, sent_kept)

  with_approval_kept :
      (t c : String) (run : CaseRun) (b : ChannelBinding) (a : Result String)
      → Preserves R (reply_with_approval env t c run b a)
  unfolding reply_with_approval
  with_approval_kept t c run b (ok a) = to_customer_kept t c run b a
  with_approval_kept t c run b (err e) = search (preserves_rules, f.order, f.audit_kept)

  reply_kept : (t c : String) → Preserves R (send_approved_customer_reply env t c)
  unfolding send_approved_customer_reply
  reply_kept t c =
      search
        (
          preserves_rules,
          f.order,
          run_found_kept,
          binding_kept f,
          draft_kept,
          approval_found_kept,
          with_approval_kept,
        )
        depth 12

  settle_kept : {A : Type 0} (r : Result A) → Preserves R (settle r)
  unfolding settle
  settle_kept (ok a) = search (preserves_rules, f.order)
  settle_kept (err e) = search (preserves_rules, f.order)

  pub approval_kept : (e : ApprovalSignalEnvelope) → Preserves R (persist_approval env e)
  unfolding persist_approval
  approval_kept e =
      search
        (
          preserves_rules, f.order, f.audit_kept, f.decision_kept, f.run_kept, reply_kept,
          settle_kept,
        )
        depth 14

  deliver_kept :
      (c : Correction) (p : DecisionPoint) (a : String) (b : ChannelBinding) (s : String)
      → Preserves R (deliver_draft env c p a b s)
  unfolding deliver_draft
  deliver_kept c p a b s =
      search (preserves_rules, f.order, f.audit_kept, send_whatsapp_kept f) depth 12

  for_binding_kept :
      (c : Correction) (p : DecisionPoint) (a : String) (b : Result ChannelBinding)
      → Preserves R (draft_for_binding env c p a b)
  unfolding draft_for_binding
  for_binding_kept c p a (err e) = search (preserves_rules, f.order)
  for_binding_kept c p a (ok b) = search (preserves_rules, f.order, deliver_kept)

  if_possible_kept :
      (c : Correction) (p : DecisionPoint) (a : String)
      → Preserves R (deliver_correction_draft_if_possible env c p a)
  unfolding deliver_correction_draft_if_possible
  if_possible_kept c p a = search (preserves_rules, f.order, binding_kept f, for_binding_kept)

  parse_failed_kept : (c : Correction) → Preserves R (parse_failed env c)
  unfolding parse_failed
  parse_failed_kept c = search (preserves_rules, f.order, f.audit_kept, send_notification_kept f)

  contradict_kept :
      (now : Time) (c : Correction) (a : String) (x : RuleCandidate)
      → Preserves R (contradict env now c a x)
  unfolding contradict
  contradict_kept now c a x =
      search (preserves_rules, f.order, f.candidate_kept, f.audit_kept, send_notification_kept f)
        depth 12

  tell_kept :
      (c : Correction) (p : DecisionPoint) (a : String) (x : RuleCandidate) (k : String)
      → Preserves R (tell env c p a x k)
  unfolding tell
  tell_kept c p a x k =
      search (preserves_rules, f.order, send_notification_kept f, if_possible_kept)

  created_kept :
      (now : Time) (c : Correction) (p : DecisionPoint) (h w a : String) (cs : List Condition)
      (xs : List RuleCandidate)
      → Preserves R (create_candidate env now c p h w a cs xs)
  unfolding create_candidate
  created_kept now c p h w a cs xs =
      search
        (
          preserves_rules, f.order, f.candidate_kept, f.new_id_kept, f.audit_kept, tell_kept,
          contradict_kept,
        )
        depth 14

  evidence_kept :
      (now : Time) (c : Correction) (p : DecisionPoint) (a : String) (x : RuleCandidate)
      → Preserves R (add_evidence env now c p a x)
  unfolding add_evidence
  evidence_kept now c p a x =
      search (preserves_rules, f.order, f.candidate_kept, f.audit_kept, tell_kept) depth 14

  into_kept :
      (now : Time) (c : Correction) (p : DecisionPoint) (h w a : String) (cs : List Condition)
      (xs : List RuleCandidate) (m : Option RuleCandidate)
      → Preserves R (merge_into env now c p h w a cs xs m)
  unfolding merge_into
  into_kept now c p h w a cs xs none = created_kept now c p h w a cs xs
  into_kept now c p h w a cs xs (some x) =
      search (preserves_rules, f.order, created_kept, evidence_kept)

  merge_rule_kept :
      (c : Correction) (p : DecisionPoint) (cs : List Condition) (a : String)
      → Preserves R (merge_rule env c p cs a)
  unfolding merge_rule
  merge_rule_kept c p cs a = Preserves-bind f.order _ _ (Preserves-lift f.order _) (λ hashed.
      Preserves-bind f.order _ _ (clock_kept f)
        (λ now. Preserves-bind f.order _ _ (siblings_kept _ _ _ _) (λ siblings. search into_kept)))

  merge_kept : (c : Correction) → Preserves R (merge_candidate env c)
  unfolding merge_candidate
  merge_kept c =
      search (preserves_rules, f.order, point_found_kept, parse_failed_kept, merge_rule_kept) depth
        12

  learn_kept :
      (e : ApprovalSignalEnvelope) (c : Correction) → Preserves R (learn_correction env e c)
  unfolding learn_correction
  learn_kept e c =
      search (preserves_rules, f.order, f.audit_kept, f.decision_kept, f.run_kept, merge_kept) depth
        12

  pub correction_kept : (e : ApprovalSignalEnvelope) → Preserves R (persist_correction env e)
  unfolding persist_correction
  correction_kept e =
      search (preserves_rules, f.order, f.new_id_kept, f.correction_kept, learn_kept) depth 12
