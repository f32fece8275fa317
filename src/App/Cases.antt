-- ===== src/App/Cases.antt =====
-- A case run against the active skill version: StartCase and ReplayCase of internal/app/app.go, and
-- evaluateDecision, buildArtifact, buildReviewPacket and runAgent behind them.
pub mod Decision
pub mod Packet
pub mod Gate
pub mod Agreement
use victoria.Prelude.{
  ◌+◌, ℕ, String, Bool, true, false, Option, none, some, List, [], ◌∷◌, map, ◌==◌, ◌&&◌, ◌||◌, not,
  if◌then◌else◌, join,
}
use victoria.Exec.{
  Result, ok, err, panic, invalid_input, sandbox_contamination, Exec, pure, throw, lift, gets,
  throw_if, or_throw, attempt, ◌>>=◌, ◌>>◌,
}
use victoria.Domain.{
  Time, Mode, mode_sandbox, valid_for_workflow_input, text, other, Payload, Fact, write, bool_value,
  CaseRun, DecisionPoint, Artifact, ReviewPacket, SkillVersion, RuleManifest,
}
use victoria.Memory.Tenants.{get_tenant, get_workflow_template}
use victoria.Memory.Cases.{
  create_case_run, get_case_run, create_decision_point, create_artifact, list_artifacts,
}
use victoria.Memory.Skills.{active_skill_version, get_skill_version}
use victoria.Rules.{allowed_actions, workflow_decision, conditions_match}
use victoria.App.{Env, World, AgentResult}
use victoria.App.Helpers.{contains}
use victoria.App.Core.{in_store, clock_now, new_id, audit, entries}
use victoria.App.Gateway.Delivery.{send_approval_packet}
use Decision.{Evaluated, evaluate_decision, consult_agent, adopt}
use Packet.{build_artifact, build_review_packet}

pub record StartCaseInput : Type 0 where
  pub tenant_id : String
  pub workflow_slug : String
  pub mode : Mode
  pub payload : Payload

pub record ReplayInput : Type 0 where
  pub tenant_id : String
  pub case_run_id : String
  pub skill_version_id : String
  pub replay_run_id : String
  pub force_current_sv : Bool

abbrev pub Started : Type 0
Started = record { run : CaseRun; packet : ReviewPacket }

-- the first snapshot, or the payload of the run
pick_snapshot : Payload → List Artifact → Payload
pick_snapshot fallback [] = fallback
pick_snapshot fallback (a ∷ artifacts) =
    if a.artifact_type == "mcp_read_snapshot" then a.content else pick_snapshot fallback artifacts

module _ (env : Env) where
  -- the writes of StartCase, in order
  unfoldable pub store_case :
      StartCaseInput → CaseRun → DecisionPoint → Artifact → ReviewPacket → Exec World Started
  store_case input run decision artifact packet = do
    in_store (create_case_run run)
    in_store (create_decision_point decision)
    in_store (create_artifact artifact)
    snapshot_id ← new_id env "art"
    in_store (
        create_artifact (record artifact {
          id = snapshot_id;
          artifact_type = "mcp_read_snapshot";
          storage_path =
              join "/"
                (join run.tenant_id (join "/sandbox/" (join run.id "/snapshots/input.json")));
          content = input.payload;
        }))
    send_approval_packet env packet
    pure (record { run = run; packet = packet })

  unfoldable pub start_case : StartCaseInput → Exec World Started
  unfolding store_case
  start_case input = do
    throw_if
        (input.tenant_id == ""
          || (input.workflow_slug == "" || not (valid_for_workflow_input input.mode)))
        invalid_input
    throw_if (input.mode == mode_sandbox && not (bool_value input.payload "sandbox"))
        sandbox_contamination
    in_store (get_tenant input.tenant_id)
    in_store (get_workflow_template input.workflow_slug)
    now ← clock_now
    input_text ← lift (env.hashing.marshal_payload input.payload)
    sv ← in_store (active_skill_version input.tenant_id input.workflow_slug)
    run_id ← new_id env "cr"
    let run : CaseRun = record {
      id = run_id;
      tenant_id = input.tenant_id;
      workflow_slug = input.workflow_slug;
      mode = input.mode;
      input_payload = input.payload;
      input_hash = env.hashing.sha256_hex input_text;
      skill_version_id = sv.id;
      replayed_from_id = "";
      status = "waiting_for_approval";
      decision_point_id = "";
      created_at = now;
      completed_at = none;
      replay_temperature = env.floats.literal "0.2";
    }
    evaluated ← evaluate_decision env now run input.payload sv
    let placed = record run { decision_point_id = evaluated.decision.id }
    agent_out ← consult_agent env placed evaluated
    let decision = adopt placed.workflow_slug agent_out evaluated.decision
    artifact ← build_artifact env now placed decision agent_out
    packet ← build_review_packet env now placed decision artifact agent_out
    store_case input placed decision artifact packet

  snapshot_payload : CaseRun → Exec World Payload
  unfolding pick_snapshot
  snapshot_payload original = do
    artifacts ← attempt (in_store (list_artifacts original.tenant_id original.id))
    gets (λ _. elim artifacts [
      | ok found ↦ pick_snapshot original.input_payload found
      | err e ↦ original.input_payload
    ])

  -- the version that the replay is pinned to
  pinned_version : ReplayInput → CaseRun → Exec World SkillVersion
  pinned_version input original =
      if not (input.skill_version_id == "")
      then in_store (get_skill_version input.tenant_id input.skill_version_id)
      else if input.force_current_sv
      then in_store (active_skill_version input.tenant_id original.workflow_slug)
      else in_store (get_skill_version input.tenant_id original.skill_version_id)

  unfoldable pub replay_case : ReplayInput → Exec World CaseRun
  unfolding snapshot_payload pinned_version
  replay_case input = do
    original ← in_store (get_case_run input.tenant_id input.case_run_id)
    sv ← pinned_version input original
    now ← clock_now
    payload ← snapshot_payload original
    run_id ← new_id env "cr"
    let replay : CaseRun = record {
      id = run_id;
      tenant_id = original.tenant_id;
      workflow_slug = original.workflow_slug;
      mode = original.mode;
      input_payload = payload;
      input_hash = original.input_hash;
      skill_version_id = sv.id;
      replayed_from_id = original.id;
      status = "replayed";
      decision_point_id = "";
      created_at = now;
      completed_at = none;
      replay_temperature = env.floats.of_int 0;
    }
    evaluated ← evaluate_decision env now replay payload sv
    let placed = record replay { decision_point_id = evaluated.decision.id }
    in_store (create_case_run placed)
    in_store (create_decision_point (record (evaluated.decision) { status = "replayed" }))
    pure placed
