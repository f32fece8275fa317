-- ===== src/Agent/Allowed.antt =====
-- What a model's answer can bring into the engine.
use victoria.Prelude.{
  ℕ, ◌≡◌, subst, String, Bool, true, false, Option, none, some, List, [], ◌∷◌, ◌==◌, if◌then◌else◌,
  Bool-cases, inl, inr,
}
use victoria.Exec.{Result, ok, err, failed}
use victoria.Text.{trim_space}
use victoria.Domain.{Floats, Fact}
use victoria.App.{AgentRequest, AgentResult}
use victoria.App.Helpers.{contains}
use victoria.Agent.{
  Agent, Service, Proposal, ChatResponse, facts_of, to_result, or_failed, refuse, read_completion,
  read_reply, propose,
}

abbrev pub Labelled : List Fact → Type 0
Labelled [] = Unit
Labelled (f ∷ fs) = (f.label == "" ≡ false) × Labelled fs

-- what the engine may rely on, whatever the model wrote
abbrev pub Safe : AgentRequest → AgentResult → Type 0
Safe req r = (contains req.allowed_actions r.proposed_action ≡ true) × Labelled r.facts

module _ (floats : Floats) where
  facts_of-Labelled : (fs : List Fact) → Labelled (facts_of floats fs)
  unfolding facts_of
  facts_of-Labelled [] = tt
  facts_of-Labelled (f ∷ fs) = elim (Bool-cases (trim_space f.label == "")) [
    | inl e ↦ rw e (facts_of-Labelled fs)
    | inr e ↦ rw e (e, facts_of-Labelled fs)
  ]

  module _ (req : AgentRequest)
      (sound : contains req.allowed_actions req.default_action ≡ true) where
    to_result-Safe : (p : Proposal) → Safe req (to_result floats p req)
    unfolding to_result
    to_result-Safe p = (
      elim (Bool-cases (contains req.allowed_actions (trim_space p.proposed_action))) [
        | inl e ↦ rw e e
        | inr e ↦ rw e sound
      ],
      facts_of-Labelled p.facts,
    )

    -- an answer, if there is one, is safe
    abbrev IfOk : Result AgentResult → Type 0
    IfOk (ok r) = Safe req r
    IfOk (err e) = Unit

    IfOk-or_failed :
        {A : Type 0} (r : Result A) (f : A → Result AgentResult)
        → ((a : A) → IfOk (f a))
        → IfOk (or_failed r f)
    unfolding or_failed
    IfOk-or_failed (ok a) f h = h a
    IfOk-or_failed (err e) f h = tt

    IfOk-refuse : (o : Option String) (r : Result AgentResult) → IfOk r → IfOk (refuse o r)
    unfolding refuse
    IfOk-refuse none r h = h
    IfOk-refuse (some m) r h = tt

    IfOk-if : (b : Bool) (r : Result AgentResult) → IfOk r → IfOk (if b then err failed else r)
    IfOk-if true r h = tt
    IfOk-if false r h = h

    module _ (service : Service) (system_prompt : String) where
      read_completion-IfOk :
          (cr : ChatResponse) → IfOk (read_completion floats service system_prompt req cr)
      unfolding read_completion
      read_completion-IfOk cr =
          IfOk-refuse cr.error _
            (IfOk-if _ _ (IfOk-or_failed (service.decode_proposal _) _ to_result-Safe))

      read_reply-IfOk :
          (reply : ℕ × String) → IfOk (read_reply floats service system_prompt req reply)
      unfolding read_reply
      read_reply-IfOk (status, raw) =
          IfOk-if _ _ (IfOk-or_failed (service.decode_response raw) _ read_completion-IfOk)

      propose-IfOk : (agent : Agent) → IfOk (propose floats service system_prompt agent req)
      unfolding propose
      propose-IfOk agent = IfOk-or_failed (service.post _ _ _ _ _) _ read_reply-IfOk

      -- Whatever the model writes, an answer of the agent proposes one of the request's allowed
      -- actions, and every fact in it has a label, where the default action is allowed.
      pub propose-Safe :
          (agent : Agent) {r : AgentResult}
          → propose floats service system_prompt agent req ≡ ok r
          → Safe req r
      propose-Safe agent e = subst IfOk e (propose-IfOk agent)
