-- ===== src/Rules/Parsing.antt =====
-- structuredRuleFromCorrection of internal/app/rules.go, parseScopeHint of internal/app/gateway.go and
-- draftBodyForAction of internal/app/helpers.go: from an operator's words to a rule and back.
use victoria.Prelude.{
  String, Bool, true, false, Option, none, some, List, [], ◌∷◌, ◌==◌, ◌&&◌, ◌||◌, if◌then◌else◌,
  join,
}
use victoria.Text.{to_lower, contains_text}
use victoria.Domain.{
  Value, text, flag, Payload, bool_value, string_value, Condition, Correction, DecisionPoint, Scope,
  scope_tenant, scope_case, action_use_different_template,
}
use victoria.Rules.Fuzzy.{contains_or_fuzzy}

match_any : String → List String → Bool
match_any words [] = false
match_any words (keyword ∷ keywords) = contains_or_fuzzy words keyword || match_any words keywords

match_all : String → List String → Bool
match_all words [] = true
match_all words (keyword ∷ keywords) = contains_or_fuzzy words keyword && match_all words keywords

abbrev condition : String → String → Value → Condition
condition field operator value = record { field = field; operator = operator; value = value }

abbrev pub Structured : Type 0
Structured = record { conditions : List Condition; recommended_action : String }

-- the conditions are empty where nothing is recognised
unfoldable pub structured_rule_from_correction : Correction → DecisionPoint → Structured
unfolding match_any match_all
structured_rule_from_correction c point =
    let words = to_lower (join c.free_text (join " " c.follow_up_answer)) in
    let photos = flag (bool_value point.agent_input "photos_complete") in
    let client = text (string_value point.agent_input "client_type" "new") in
    if match_any words ("singapore" ∷ "no gst" ∷ [])
    then record {
      conditions = condition "supplier_country" "!=" (text "AU") ∷ [];
      recommended_action = "apply_no_gst";
    }
    else if match_all words ("commercial" ∷ "template" ∷ [])
    then record {
      conditions = condition "enquiry_type" "=" (text "commercial") ∷ [];
      recommended_action = "use_corporate_template";
    }
    else if match_any words ("send it anyway" ∷ "go ahead" ∷ [])
    then record {
      conditions = condition "photos_complete" "=" photos ∷ condition "client_type" "=" client ∷ [];
      recommended_action = "send_quote";
    }
    else if match_any words ("repeat" ∷ "known client" ∷ [])
    then record {
      conditions =
          condition "photos_complete" "=" photos ∷ condition "client_type" "=" (text "repeat") ∷ [];
      recommended_action = "send_quote";
    }
    else if match_any words ("photo" ∷ "hold" ∷ "more info" ∷ [])
    then record {
      conditions =
          condition "photos_complete" "=" (flag false) ∷ condition "client_type" "=" client ∷ [];
      recommended_action = "hold_and_request_more_info";
    }
    else if c.action_button == action_use_different_template
    then record {
      conditions =
          condition "enquiry_type" "="
            (text (string_value point.agent_input "enquiry_type" "commercial"))
          ∷ [];
      recommended_action = "use_corporate_template";
    }
    else record { conditions = []; recommended_action = "" }

unfoldable pub parse_scope_hint : String → Option Scope
parse_scope_hint value =
    if contains_text (to_lower value) "always" || contains_text (to_lower value) "tenant"
    then some scope_tenant
    else if contains_text (to_lower value) "this case" || contains_text (to_lower value) "case"
    then some scope_case
    else none

unfoldable pub draft_body_for_action : String → Payload → String
draft_body_for_action action payload =
    if action == "hold_and_request_more_info"
    then "Hi! Thanks for reaching out. Before I prepare a quote, could you send 2-3 photos so I can size it correctly?"
    else if action == "send_quote"
    then "Hi! Thanks for reaching out, we can help with that. I'll send across our quote shortly."
    else if action == "use_corporate_template"
    then "Hi! Thanks for reaching out — I'll have our corporate-accounts team get back to you with the right pack."
    else ""
