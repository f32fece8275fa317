-- ===== src/App/Signals/Once.antt =====
-- persistSignal of internal/app/app.go, called again for the same signal.
use victoria.Prelude.{◌≡◌, refl, ap, ◌∙◌, some, ◌==◌, if◌then◌else◌, Option-cases, inl, inr}
use victoria.Exec.{ok, skip, ◌>>=◌}
use victoria.Exec.Preserves.{Preserves, Preserves-if}
use victoria.GoMap.{GoMap, get}
use victoria.GoMap.Laws.{get-put_self}
use victoria.Domain.{ApprovalSignalEnvelope, action_approve}
use victoria.Memory.{Store}
use victoria.Memory.Audit.{seen_signal, mark_signal_seen}
use victoria.App.{Env, World}
use victoria.App.Core.{in_store}
use victoria.App.Frame.{Frame}
use victoria.App.Frame.Fields.{SamePart, Frame-of_part}
use victoria.App.Frame.Learning.{approval_kept, correction_kept}
use victoria.App.Signals.{persist_signal, persist_approval, persist_correction}

signals_of : Store → GoMap (Unit {0})
signals_of s = s.signals

frame : (env : Env) → Frame env (SamePart signals_of)
unfolding signals_of
frame env = Frame-of_part env signals_of (record {
  to_log = λ s x y. refl;
  to_decisions = λ s x. refl;
  to_runs = λ s x. refl;
  to_out = λ s x y. refl;
  to_corrections = λ s x y. refl;
  to_candidates = λ s x. refl;
})

module _ (env : Env) (envelope : ApprovalSignalEnvelope) (w : World) where
  persist_signal-ignored :
      get envelope.signal_id w.store.signals ≡ some tt → persist_signal env envelope w ≡ (ok tt, w)
  unfolding persist_signal ◌>>=◌ in_store seen_signal skip
  persist_signal-ignored h = rw (h, seen_signal) refl

  -- the world in which the signal is acted on
  marked : World
  marked = record w { store = (mark_signal_seen envelope.signal_id w.store).1 }

  persist_signal-marks :
      get envelope.signal_id (persist_signal env envelope w).1.store.signals ≡ some tt
  unfolding persist_signal ◌>>=◌ in_store seen_signal skip mark_signal_seen marked signals_of
  persist_signal-marks = elim (Option-cases (get envelope.signal_id w.store.signals)) [
    | inr (_, h) ↦ rw (h, seen_signal) h
    | inl h ↦
        rw (h, seen_signal)
          (ap (get envelope.signal_id) (acted.at marked)
            ∙ get-put_self envelope.signal_id tt w.store.signals)
  ]
    where
      acted : Preserves (SamePart signals_of) (
          if envelope.action_button == action_approve
          then persist_approval env envelope
          else persist_correction env envelope)
      acted =
          Preserves-if (frame env).order _ _ _ (λ _. approval_kept (frame env) envelope)
            (λ _. correction_kept (frame env) envelope)

-- Whatever became of a signal, an approval that was sent or a correction that failed half-way, the
-- same signal does nothing when it comes again.
pub persist_signal-once :
    (env : Env) (envelope : ApprovalSignalEnvelope) (w : World)
    → persist_signal env envelope (persist_signal env envelope w).1
      ≡ (ok tt, (persist_signal env envelope w).1)
persist_signal-once env envelope w =
    persist_signal-ignored env envelope (persist_signal env envelope w).1
      (persist_signal-marks env envelope w)
