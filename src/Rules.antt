-- ===== src/Rules.antt =====
-- internal/app/rules.go: the decision tables, and when a rule fits a case.
pub mod Fuzzy
pub mod Parsing
pub mod Redaction
use victoria.Prelude.{
  String, Bool, true, false, none, some, List, [], ◌∷◌, ◌==◌, not, if◌then◌else◌, join,
}
use victoria.Domain.{WorkflowTemplate, Condition, Payload, text, read, sprint}

-- a template of defaultWorkflowTemplates
abbrev template : String → String → String → String → String → WorkflowTemplate
template prefix vertical slug display_name decision_type = record {
  id = join prefix vertical;
  slug = slug;
  vertical = vertical;
  display_name = display_name;
  decision_types = decision_type ∷ [];
}

unfoldable pub default_workflow_templates : String → List WorkflowTemplate
default_workflow_templates vertical =
    template "wt_enquiry_" vertical "enquiry_triage" "Enquiry triage" "route_or_reply"
    ∷ template "wt_quote_" vertical "quote_drafting" "Quote drafting" "send_or_hold"
    ∷ template "wt_invoice_" vertical "invoice_handling" "Invoice handling" "tax_treatment"
    ∷ []

unfoldable pub allowed_actions : String → List String
allowed_actions workflow_slug =
    if workflow_slug == "invoice_handling"
    then "apply_gst" ∷ "apply_no_gst" ∷ "hold_and_request_more_info" ∷ []
    else if workflow_slug == "enquiry_triage"
    then "draft_reply" ∷ "hold_and_request_more_info" ∷ "use_corporate_template" ∷ []
    else "send_quote" ∷ "hold_and_request_more_info" ∷ "use_corporate_template" ∷ []

abbrev pub Decision : Type 0
Decision = record { decision_type : String; default_action : String }

unfoldable pub workflow_decision : String → Decision
workflow_decision workflow_slug =
    if workflow_slug == "invoice_handling"
    then record { decision_type = "tax_treatment"; default_action = "apply_gst" }
    else if workflow_slug == "enquiry_triage"
    then record { decision_type = "route_or_reply"; default_action = "draft_reply" }
    else record { decision_type = "send_or_hold"; default_action = "send_quote" }

unfoldable pub workflow_from_case_input : Payload → String
workflow_from_case_input input = elim (read input "workflow_slug") [
  | some (text value) ↦ if value == "" then "quote_drafting" else value
  | _ ↦ "quote_drafting"
]

-- the body of the loop of conditionsMatch, which goes on where this is true
condition_holds : Payload → Condition → Bool
condition_holds payload condition =
    if condition.operator == "="
    then elim (read payload condition.field) [
      | none ↦ false
      | some actual ↦ sprint actual == sprint condition.value
    ]
    else if condition.operator == "!="
    then elim (read payload condition.field) [
      | none ↦ true
      | some actual ↦ not (sprint actual == sprint condition.value)
    ]
    else false

unfoldable pub conditions_match : Payload → List Condition → Bool
unfolding condition_holds
conditions_match payload [] = true
conditions_match payload (condition ∷ conditions) =
    let rest = conditions_match payload conditions in
    if condition_holds payload condition then rest else false
