-- ===== src/Agent.antt =====
-- internal/agent/deepseek/agent.go: the agent over a language model. The encoder, the network and the
-- decoder of JSON are the parameter `Service`.
pub mod Allowed
use victoria.Prelude.{
  ℕ, String, Bool, Option, none, some, List, [], ◌∷◌, ◌==◌, ◌||◌, not, if◌then◌else◌, join, ltb,
  leb,
}
use victoria.Exec.{Result, ok, err, failed}
use victoria.Text.{trim_space, join_with}
use victoria.Domain.{Float64, Floats, Fact, Payload}
use victoria.App.{AgentRequest, AgentResult}
use victoria.App.Helpers.{contains}

-- proposalJSON
pub record Proposal : Type 0 where
  pub facts : List Fact
  pub proposed_action : String
  pub draft_reply : String
  pub reasoning : String

-- chatResponse: the message of its error, and the contents of its choices
pub record ChatResponse : Type 0 where
  pub error : Option String
  pub choices : List String

pub record Config : Type 0 where
  pub api_key : String
  pub base_url : String
  pub model : String

-- the HTTP client stays outside
pub record Agent : Type 0 where
  pub key : String
  pub base : String
  pub model : String

pub record Service : Type 0 where
  -- json.MarshalIndent of a payload
  pub print_payload : Payload → String
  -- the POST of a system and a user message to a URL: the status and the body, or a failure
  pub post : (url key model system user : String) → Result (ℕ × String)
  pub decode_response : String → Result ChatResponse
  pub decode_proposal : String → Result Proposal
  -- strings.TrimRight(s, "/")
  pub without_slashes : String → String

-- `if err != nil { return ..., fmt.Errorf(...) }`
or_failed : {A B : Type 0} → Result A → (A → Result B) → Result B
or_failed (err e) f = err failed
or_failed (ok a) f = f a

-- an error that the service reports
refuse : {A : Type 0} → Option String → Result A → Result A
refuse (some message) r = err failed
refuse none r = r

abbrev default_base_url : String
default_base_url = "https://api.deepseek.com"

abbrev default_model : String
default_model = "deepseek-v4-pro"

module _ (service : Service) where
  -- New; none is the nil agent
  unfoldable new_agent : Config → Option Agent
  new_agent cfg =
      let base = service.without_slashes (trim_space cfg.base_url) in
      if trim_space cfg.api_key == ""
      then none
      else some (record {
        key = trim_space cfg.api_key;
        base = if base == "" then default_base_url else base;
        model = if trim_space cfg.model == "" then default_model else trim_space cfg.model;
      })

  user_prompt : AgentRequest → String
  user_prompt req = join "Workflow: " (
      join req.workflow_slug (
        join "\nDecision type: " (
          join req.decision_type (
            join "\nAllowed actions (choose exactly one): " (
              join (join_with ", " req.allowed_actions) (
                join "\nDefault action if you are unsure: " (
                  join req.default_action (
                    join "\n\nCustomer case input (JSON):\n" (
                      join (service.print_payload req.payload)
                        "\n\nReturn the JSON object now.")))))))))

module _ (floats : Floats) where
  -- the switch over a confidence
  clamp_confidence : Float64 → Float64
  clamp_confidence c =
      if floats.at_least (floats.of_int 0) c
      then floats.literal "0.9"
      else if floats.less (floats.of_int 1) c
      then floats.of_int 1
      else c

  -- the loop over the facts
  facts_of : List Fact → List Fact
  unfolding clamp_confidence
  facts_of [] = []
  facts_of (f ∷ fs) =
      let rest = facts_of fs in
      if trim_space f.label == ""
      then rest
      else record {
        label = trim_space f.label;
        value = trim_space f.value;
        confidence = clamp_confidence f.confidence;
      }
        ∷ rest

  pub to_result : Proposal → AgentRequest → AgentResult
  unfolding facts_of
  to_result p req = record {
    facts = facts_of p.facts;
    proposed_action =
        if not (contains req.allowed_actions (trim_space p.proposed_action))
        then req.default_action
        else trim_space p.proposed_action;
    draft_reply = trim_space p.draft_reply;
    reasoning = trim_space p.reasoning;
  }

  module _ (service : Service) (system_prompt : String) where
    abbrev head_content : List String → String
    head_content [] = ""
    head_content (c ∷ cs) = c

    -- the part of Propose behind the decoded response
    read_completion : AgentRequest → ChatResponse → Result AgentResult
    unfolding to_result or_failed refuse
    read_completion req cr = refuse cr.error (
        if trim_space (head_content cr.choices) == ""
        then err failed
        else or_failed (service.decode_proposal (head_content cr.choices))
            (λ p. ok (to_result p req)))

    -- the part behind the answer of the network
    read_reply : AgentRequest → ℕ × String → Result AgentResult
    unfolding read_completion
    read_reply req (status, raw) =
        if ltb status 200 || leb 300 status
        then err failed
        else or_failed (service.decode_response raw) (read_completion req)

    unfoldable pub propose : Agent → AgentRequest → Result AgentResult
    unfolding read_reply user_prompt
    propose agent req =
        or_failed
          (service.post (join agent.base "/chat/completions") agent.key agent.model system_prompt
            (user_prompt service req))
          (read_reply req)
