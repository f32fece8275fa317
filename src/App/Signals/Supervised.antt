-- ===== src/App/Signals/Supervised.antt =====
-- persistSignal of internal/app/app.go, and the parts of the store that it is followed on.
use victoria.Prelude.{String, ◌≡◌, refl, ◌==◌, if◌then◌else◌, Option-cases, inl, inr}
use victoria.Exec.{skip, ◌>>=◌}
use victoria.Exec.Preserves.{Preserves, Preserves-if}
use victoria.GoMap.{GoMap, get}
use victoria.Domain.{
  ApprovalSignalEnvelope, SkillVersion, ValidatedRule, OutboundQueueEntry, action_approve,
}
use victoria.Memory.{Store}
use victoria.Memory.Audit.{seen_signal, mark_signal_seen}
use victoria.App.{Env, World}
use victoria.App.Core.{in_store}
use victoria.App.Frame.{Frame}
use victoria.App.Frame.Fields.{SamePart, Frame-of_part}
use victoria.App.Frame.Learning.{approval_kept, correction_kept}
use victoria.App.Signals.{persist_signal, persist_approval, persist_correction}

-- the validated rules, the skill versions, the versions in force, and the queue
abbrev pub InForce : Type 0
InForce = record {
  validated : GoMap ValidatedRule;
  skill_versions : GoMap SkillVersion;
  active_sv : GoMap String;
  outbound_queue : GoMap OutboundQueueEntry;
}

pub in_force : Store → InForce
in_force s = record {
  validated = s.validated;
  skill_versions = s.skill_versions;
  active_sv = s.active_sv;
  outbound_queue = s.outbound_queue;
}

frame : (env : Env) → Frame env (SamePart in_force)
unfolding in_force
frame env = Frame-of_part env in_force (record {
  to_log = λ s x y. refl;
  to_decisions = λ s x. refl;
  to_runs = λ s x. refl;
  to_out = λ s x y. refl;
  to_corrections = λ s x y. refl;
  to_candidates = λ s x. refl;
})

-- No signal puts a rule into force: whatever an operator approves or corrects, the validated rules,
-- the skill versions and the version in force stay as they are. So does the queue of packets.
pub persist_signal-in_force :
    (env : Env) (envelope : ApprovalSignalEnvelope) (w : World)
    → in_force (persist_signal env envelope w).1.store ≡ in_force w.store
unfolding persist_signal ◌>>=◌ in_store seen_signal skip mark_signal_seen in_force
persist_signal-in_force env envelope w =
    elim (Option-cases (get envelope.signal_id w.store.signals)) [
      | inr (_, h) ↦ rw (h, seen_signal) refl
      | inl h ↦
          rw (h, seen_signal)
            (acted.at (record w { store = (mark_signal_seen envelope.signal_id w.store).1 }))
    ]
  where
    acted : Preserves (SamePart in_force) (
        if envelope.action_button == action_approve
        then persist_approval env envelope
        else persist_correction env envelope)
    acted =
        Preserves-if (frame env).order _ _ _ (λ _. approval_kept (frame env) envelope)
          (λ _. correction_kept (frame env) envelope)
