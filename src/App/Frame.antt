-- ===== src/App/Frame.antt =====
-- Relations between the world before and after that every step of the engine keeps: `Frame` lists
-- the steps that the methods are made of.
pub mod Sending
pub mod Learning
pub mod Fields
use victoria.Prelude.{String, ◌≡◌, refl, List}
use victoria.Exec.{Exec}
use victoria.Exec.Preserves.{Preorder, Preserves}
use victoria.Domain.{Payload, OutboundMessage, RuleCandidate, Correction, OutboundToCustomer}
use victoria.Memory.{Store}
use victoria.Memory.Cases.{update_decision_point_status, update_case_run_status}
use victoria.Memory.Customers.{upsert_outbound_to_customer}
use victoria.Memory.Learning.{create_correction, save_candidate}
use victoria.App.{Env, World}
use victoria.App.Core.{in_store, new_id, audit}
use victoria.App.Outbound.{adapter_send}

pub record Frame (env : Env) (R : World → World → Type 0) : Type 0 where
  pub order : Preorder R
  pub audit_kept :
      (a b c d e f : String) (related payload : Payload) (keys : List String)
      → Preserves R (audit env a b c d e f related payload keys)
  pub new_id_kept : (prefix : String) → Preserves R (new_id env prefix)
  pub send_kept :
      (channel : String) (msg : OutboundMessage) → Preserves R (adapter_send env channel msg)
  pub decision_kept : (a b c : String) → Preserves R (in_store (update_decision_point_status a b c))
  pub run_kept : (a b c : String) → Preserves R (in_store (update_case_run_status a b c))
  pub out_kept :
      (out : OutboundToCustomer) → Preserves R (in_store (upsert_outbound_to_customer out))
  pub correction_kept : (c : Correction) → Preserves R (in_store (create_correction c))
  pub candidate_kept : (c : RuleCandidate) → Preserves R (in_store (save_candidate c))

-- a method of the store that only reads
pub Preserves-read :
    {R : World → World → Type 0} (o : Preorder R) {A : Type 0} (m : Exec Store A)
    → ((s : Store) → (m s).1 ≡ s)
    → Preserves R (in_store m)
unfolding in_store
Preserves-read o m h = record { at = λ w. rw (h w.store) (o.same w) }
