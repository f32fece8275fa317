-- ===== src/App/Mcp.antt =====
-- The gate in front of the tools with side effects: CallMCPWriteFinal and MCPListTools of
-- internal/app/app.go.
pub mod Gate
use victoria.Prelude.{
  String, Bool, true, false, Option, none, some, List, [], ◌∷◌, ◌++◌, ◌==◌, ◌||◌, not,
  if◌then◌else◌,
}
use victoria.Exec.{
  Error, sandbox_mode, security_violation, approval_required, Exec, pure, ignore, ◌>>=◌, ◌>>◌,
}
use victoria.Sort.{text_less, sort_by}
use victoria.Domain.{
  Mode, mode_sandbox, mode_live, parse_mode, text, Payload, McpRequest, McpResult,
}
use victoria.Memory.Audit.{has_approval_audit}
use victoria.App.{Env, World}
use victoria.App.Core.{in_store, audit, entries}

-- the result and the error come back together
abbrev pub Answer : Type 0
Answer = record { result : McpResult; error : Option Error }

abbrev pub refused : String → String → Error → Answer
refused code message e = record {
  result = record { accepted = false; code = code; error = message };
  error = some e;
}

abbrev pub granted : Answer
granted = record { result = record { accepted = true; code = ""; error = "" }; error = none }

module _ (env : Env) where
  -- an audit event about a decision point, with the tool in its key
  mcp_audit : String → String → McpRequest → Payload → List String → Exec World Bool
  mcp_audit event_type bound_tenant_id req payload key_parts =
      audit env bound_tenant_id event_type "system" "mcp" "decision_point" req.decision_point_id
        none payload key_parts

  abbrev key : String → String → McpRequest → List String
  key kind bound_tenant_id req =
      kind ∷ bound_tenant_id ∷ req.case_run_id ∷ req.decision_point_id ∷ req.tool_name ∷ []

  pub call_mcp_write_final : String → Mode → McpRequest → Exec World Answer
  unfolding mcp_audit
  call_mcp_write_final bound_tenant_id server_mode req =
      if parse_mode server_mode == mode_sandbox || parse_mode req.mode == mode_sandbox
      then (do
        ignore (
            mcp_audit "sandbox_escape_blocked" bound_tenant_id req
              (entries (("tool_name", text req.tool_name) ∷ []))
              (key "mcp-sandbox" bound_tenant_id req))
        pure (refused "SANDBOX_MODE" "sandbox mode" sandbox_mode))
      else if not (req.tenant_header == bound_tenant_id)
      then (do
        ignore (
            mcp_audit "security_violation" bound_tenant_id req
              (entries (
                ("tenant_header", text req.tenant_header)
                ∷ ("bound_tenant", text bound_tenant_id)
                ∷ ("tool_name", text req.tool_name)
                ∷ []))
              (key "mcp-security" bound_tenant_id req))
        pure (refused "TENANT_MISMATCH" "security violation" security_violation))
      else (do
        approved ←
            in_store (has_approval_audit bound_tenant_id req.case_run_id req.decision_point_id)
        if not approved
            then (do
              ignore (
                  mcp_audit "blocked_write_attempted" bound_tenant_id req
                    (entries (("tool_name", text req.tool_name) ∷ []))
                    (key "mcp-approval" bound_tenant_id req))
              pure (refused "APPROVAL_REQUIRED" "approval required" approval_required))
            else (do
              mcp_audit "mcp_tool_called" bound_tenant_id req
                  (entries (
                    ("tool_name", text req.tool_name)
                    ∷ ("side_effect_class", text "write_final")
                    ∷ []))
                  (key "mcp-tool" bound_tenant_id req ++ req.idempotency_key ∷ [])
              pure granted))

unfoldable pub mcp_list_tools : Mode → List String
mcp_list_tools mode = sort_by text_less (
    ("create_draft_email" ∷ "create_invoice_draft" ∷ "read_file" ∷ "parse_invoice_document" ∷ [])
    ++ (if parse_mode mode == mode_live
        then "send_draft_email" ∷ "publish_document" ∷ "finalize_invoice" ∷ "submit_to_accounting"
          ∷ []
        else []))
