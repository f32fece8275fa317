-- ===== src/Channel.antt =====
-- internal/channel/adapter.go: how a review packet is put into words for the operator.
use victoria.Prelude.{String, none, some, List, [], ◌∷◌, map, ◌==◌, ◌&&◌, not, if◌then◌else◌, join}
use victoria.GoMap.{GoMap, get, put}
use victoria.Text.{trim_space}
use victoria.Domain.{
  Fact, ReviewPacket, ActionButton, action_approve, action_wrong_facts, action_wrong_action,
  action_missing_condition, action_use_different_template, action_add_note, ButtonSpec,
  OutboundMessage,
}

-- factsToMap, from the facts already read
facts_to_map : GoMap String → List Fact → GoMap String
facts_to_map out [] = out
facts_to_map out (f ∷ facts) = facts_to_map (put f.label f.value out) facts

-- a read of a missing key is ""
abbrev fact : GoMap String → String → String
fact m k = elim (get k m) [ none ↦ "" | some v ↦ v ]

non_empty : String → String → String
non_empty value fallback = if trim_space value == "" then fallback else value

human_action : String → String
human_action action =
    if action == "send_quote"
    then "send our standard quote"
    else if action == "hold_and_request_more_info"
    then "hold and ask for more info first"
    else if action == "apply_gst"
    then "record this with the standard 10% GST applied"
    else if action == "apply_no_gst"
    then "record this as GST-exempt"
    else if action == "use_corporate_template"
    then "reply with our corporate-client template"
    else if action == "draft_reply"
    then "draft a standard reply"
    else action

reply_prompt : ReviewPacket → String
reply_prompt p =
    let draft = trim_space p.draft_reply in
    join (if draft == "" then "" else join "\n\n📝 Here's the draft I'd send:\n_" (join draft "_"))
      "\n\n*Approved?* Y / N  — or tap an option / tell me what to change."

-- the two lines that close every body
planning : ReviewPacket → String
unfolding human_action reply_prompt
planning p =
    join "\n👉 I'm planning to: *"
      (join (human_action p.planned_action.kind) (join "*" (reply_prompt p)))

narrate_quote : ReviewPacket → GoMap String → String
unfolding non_empty planning
narrate_quote p f = join "👋 New quote enquiry from *" (
    join (non_empty (fact f "customer_name") "a new customer") (
      join "* — " (
        join (non_empty (fact f "project_summary") "their project") (
          join ".\n\n" (
            join
              (if fact f "client_type" == "repeat"
                then "They're a repeat customer (we've worked with them before).\n"
                else if fact f "client_type" == "commercial"
                then "They look like a commercial lead.\n"
                else "They're a new customer.\n")
              (join
                (if fact f "photos_complete" == "true"
                  then "Photos look complete.\n"
                  else "⚠\u{fe0f} They haven't sent any photos yet.\n")
                (planning p)))))))

narrate_invoice : ReviewPacket → GoMap String → String
unfolding non_empty planning
narrate_invoice p f =
    let country = non_empty (fact f "supplier_country") "" in
    join "📄 New invoice from *" (
      join (non_empty (fact f "supplier_name") "a supplier") (
        join "* for " (
          join (non_empty (fact f "invoice_amount") "an unknown amount") (
            join ".\n\n" (
              join
                (if not (country == "") && not (country == "AU")
                  then join "They're based in " (join country " (overseas).\n")
                  else if country == "AU"
                  then "They're an AU-based supplier.\n"
                  else "")
                (planning p))))))

narrate_triage : ReviewPacket → GoMap String → String
unfolding non_empty planning
narrate_triage p f =
    let excerpt = non_empty (fact f "message_excerpt") "" in
    join "📨 New enquiry from *" (
      join (non_empty (fact f "from") "a new contact") (
        join "*.\n"
          (join (if excerpt == "" then "" else join "_\"" (join excerpt "\"_\n")) (planning p))))

fact_lines : GoMap String → String
fact_lines [] = ""
fact_lines ((k, v) ∷ m) = join "• " (join k (join ": " (join v (join "\n" (fact_lines m)))))

narrate_generic : ReviewPacket → GoMap String → String
unfolding planning fact_lines
narrate_generic p f =
    join "📥 Victoria has a decision waiting for you.\n\n" (join (fact_lines f) (planning p))

render_body : ReviewPacket → String
unfolding facts_to_map narrate_quote narrate_invoice narrate_triage narrate_generic
render_body p =
    let facts = facts_to_map [] p.facts in
    if p.workflow_type == "quote_drafting"
    then narrate_quote p facts
    else if p.workflow_type == "invoice_handling"
    then narrate_invoice p facts
    else if p.workflow_type == "enquiry_triage"
    then narrate_triage p facts
    else narrate_generic p facts

button_label : ActionButton → String
button_label b =
    if b == action_approve
    then "Approve"
    else if b == action_wrong_facts
    then "Wrong facts"
    else if b == action_wrong_action
    then "Wrong action"
    else if b == action_missing_condition
    then "Missing condition"
    else if b == action_use_different_template
    then "Use different template"
    else if b == action_add_note
    then "Add note"
    else b

unfoldable pub render_packet : ReviewPacket → String → OutboundMessage
unfolding render_body button_label
render_packet packet recipient = record {
  tenant_id = packet.tenant_id;
  recipient_identifier = recipient;
  packet_id = packet.packet_id;
  body_text = render_body packet;
  buttons =
      map {B = ButtonSpec} (λ (b : ActionButton). record { id = b; label = button_label b })
        packet.button_set;
  idempotency_key = packet.idempotency_key;
}
