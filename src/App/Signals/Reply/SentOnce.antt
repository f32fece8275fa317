-- ===== src/App/Signals/Reply/SentOnce.antt =====
-- The full-control branch of SendApprovedCustomerReply of internal/app/app.go, called again.
use victoria.Prelude.{String, true, some, [], ◌∷◌, ◌≡◌, refl, ◌==◌, Bool-cases, inl, inr}
use victoria.Exec.{pure, throw, ◌>>=◌}
use victoria.GoMap.{get}
use victoria.Domain.{CaseRun, ChannelBinding, OutboundToCustomer, string_value, sha256_key}
use victoria.Memory.{triple_key}
use victoria.Memory.Customers.{upsert_outbound_to_customer}
use victoria.App.{Env, World}
use victoria.App.Helpers.{draft_body_for_run}
use victoria.App.Core.{in_store, new_id}
use victoria.App.Signals.Reply.{reply_to_customer}

module _ (env : Env) (tenant_id case_run_id : String) (run : CaseRun) (binding : ChannelBinding)
    (approval_id id : String) (sent : OutboundToCustomer) (w : World) where
  -- Where the row of the reply says that it was sent, no further approval sends it again: nothing
  -- reaches an adapter, and the rows of the replies stay as they are.
  pub reply_to_customer-once :
      get
          (triple_key tenant_id case_run_id (sha256_key env.hashing (draft_body_for_run run ∷ [])))
          w.store.out_by_key
        ≡ some id
      → get id w.store.customer_out ≡ some sent
      → (sent.status == "sent") ≡ true
      → ((reply_to_customer env tenant_id case_run_id run binding approval_id w).1.outbox
          ≡ w.outbox)
        × ((reply_to_customer env tenant_id case_run_id run binding approval_id w).1.sends_made
            ≡ w.sends_made)
        × ((reply_to_customer env tenant_id case_run_id run binding approval_id
              w).1.store.customer_out
            ≡ w.store.customer_out)
  unfolding reply_to_customer ◌>>=◌ in_store new_id upsert_outbound_to_customer throw pure get
  reply_to_customer-once h k e =
      elim (Bool-cases (string_value run.input_payload "customer_identifier" "" == "")) [
        | inl n ↦ rw n (refl, refl, refl)
        | inr n ↦ rw n (rw h (rw k (rw e (rw e (refl, refl, refl)))))
      ]
