-- ===== src/App/Cases/Packet.antt =====
-- buildArtifact and buildReviewPacket of internal/app/app.go, factsFromPayload of internal/app/helpers.go.
use victoria.Prelude.{
  ◌+◌, ◌*◌, String, true, false, Option, none, some, List, [], ◌∷◌, ◌++◌, map, ◌==◌, not,
  if◌then◌else◌, join, length, eqb,
}
use victoria.Exec.{Exec, pure, ◌>>=◌}
use victoria.GoMap.{GoMap, select}
use victoria.Sort.{text_less, sort_by}
use victoria.Text.{trim_space}
use victoria.Domain.{
  Time, hour, text, Value, Payload, sprint, Fact, CaseRun, DecisionPoint, Artifact, ReviewPacket,
  action_approve, action_wrong_facts, action_wrong_action, action_missing_condition,
  action_use_different_template, action_add_note, sha256_key,
}
use victoria.Rules.Parsing.{draft_body_for_action}
use victoria.App.{Env, World, AgentResult}
use victoria.App.Core.{new_id, entries}

abbrev entries_of : Payload → GoMap Value
entries_of none = []
entries_of (some m) = m

-- the content that depends on the agent
agent_content : Option AgentResult → GoMap Value
agent_content none = ("drafted_by", text "template") ∷ []
agent_content (some out) =
    ("drafted_by", text "agent")
    ∷ (if out.reasoning == "" then [] else ("agent_reasoning", text out.reasoning) ∷ [])

-- the agent's draft, or the template for the action; `blank` says what counts as no draft
abbrev drafted : (String → String) → Option AgentResult → String → String
drafted blank none template = template
drafted blank (some out) template =
    if blank out.draft_reply == "" then template else out.draft_reply

abbrev agent_facts : Option AgentResult → List Fact → List Fact
agent_facts none facts = facts
agent_facts (some out) facts = if eqb (length out.facts) 0 then facts else out.facts

abbrev described : Option AgentResult → String → String
described none action = action
described (some out) action = if trim_space out.reasoning == "" then action else out.reasoning

module _ (env : Env) where
  -- the entries in the order of their keys, less "sandbox"
  facts_from_payload : Payload → List Fact
  facts_from_payload payload =
      map {B = Fact}
        (λ (e : String × Value). record {
          label = e.0;
          value = sprint e.1;
          confidence = env.floats.of_int 1;
        })
        (sort_by (λ (a b : String × Value). text_less a.0 b.0)
          (select (λ (e : String × Value). not (e.0 == "sandbox")) (entries_of payload)))

  unfoldable pub build_artifact :
      Time → CaseRun → DecisionPoint → Option AgentResult → Exec World Artifact
  unfolding agent_content
  build_artifact now run point agent_out = do
    let draft =
        drafted (λ s. s) agent_out (draft_body_for_action point.proposed_action point.agent_input)
    id ← new_id env "art"
    pure (record {
      id = id;
      tenant_id = run.tenant_id;
      case_run_id = run.id;
      decision_point_id = point.id;
      artifact_type = "draft_email";
      storage_path =
          join "/"
            (join run.tenant_id (join "/sandbox/" (join run.id "/artifacts/draft_email.json")));
      content = entries (
          (("proposed_action", text point.proposed_action)
            ∷ ("workflow_slug", text run.workflow_slug)
            ∷ agent_content agent_out)
          ++ (if draft == "" then [] else ("draft_reply", text draft) ∷ []));
      created_at = now;
    })

  unfoldable pub build_review_packet :
      Time → CaseRun → DecisionPoint → Artifact → Option AgentResult → Exec World ReviewPacket
  unfolding facts_from_payload
  build_review_packet now run point artifact agent_out = do
    let expires_at = now + 48 * hour
    id ← new_id env "pkt"
    pure (record {
      packet_id = id;
      schema_version = "1.1";
      tenant_id = run.tenant_id;
      case_run_id = run.id;
      decision_point_id = point.id;
      workflow_type = run.workflow_slug;
      mode = run.mode;
      trigger = entries (
          ("summary", text "Sandbox case ready for review")
          ∷ ("source_channel", text "fixture")
          ∷ ("received_at", text (env.format_time now))
          ∷ []);
      facts = agent_facts agent_out (facts_from_payload run.input_payload);
      planned_action = record {
        kind = point.proposed_action;
        description = described agent_out point.proposed_action;
        is_destructive = false;
        requires_approval = true;
      };
      draft_reply =
          drafted trim_space agent_out
            (draft_body_for_action point.proposed_action point.agent_input);
      artifact_preview = record {
        kind = artifact.artifact_type;
        preview_url = join "/preview/" artifact.id;
        inline_thumbnail_url = "";
        expires_at = expires_at;
      };
      button_set =
          action_approve ∷ action_wrong_facts ∷ action_wrong_action ∷ action_missing_condition
          ∷ action_use_different_template ∷ action_add_note ∷ [];
      expires_at = expires_at;
      idempotency_key = sha256_key env.hashing (run.tenant_id ∷ point.id ∷ "packet" ∷ "1" ∷ []);
      delivered = false;
    })
