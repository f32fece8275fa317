-- ===== src/App/Helpers.antt =====
-- internal/app/helpers.go: identifiers of people, lists of strings and scopes.
use victoria.Prelude.{
  ℕ, String, Bool, false, none, some, List, [], ◌∷◌, ◌++◌, ◌==◌, ◌||◌, not, if◌then◌else◌, join,
}
use victoria.Text.{trim_space, contains_text, after_prefix}
use victoria.Domain.{
  parse_inbound_mode, inbound_full_control, Scope, scope_case, scope_tenant, scope_vertical,
  Payload, string_value, CaseRun, ChannelBinding, InboundMessage,
}

abbrev pub channel_whatsapp : String
channel_whatsapp = "whatsapp"

abbrev pub channel_telegram : String
channel_telegram = "telegram"

abbrev without_plus : String → String
without_plus s = elim (after_prefix "+" s) [ none ↦ s | some rest ↦ rest ]

unfoldable pub normalize_whatsapp_jid : String → String
normalize_whatsapp_jid input =
    let clean = trim_space input in
    if clean == ""
    then ""
    else if contains_text clean "@"
    then clean
    else join (without_plus clean) "@s.whatsapp.net"

unfoldable pub normalize_inbound_jid : InboundMessage → String
normalize_inbound_jid msg =
    if normalize_whatsapp_jid msg.sender_jid == ""
    then normalize_whatsapp_jid msg.sender_identifier
    else normalize_whatsapp_jid msg.sender_jid

abbrev head_or_empty : List String → String
head_or_empty [] = ""
head_or_empty (x ∷ xs) = x

unfoldable pub operator_recipient : ChannelBinding → String
operator_recipient binding =
    if not (binding.channel == channel_whatsapp)
    then binding.provider_number
    else if parse_inbound_mode binding.inbound_mode == inbound_full_control
    then head_or_empty binding.command_identities
    else if not (binding.draft_delivery_jid == "")
    then binding.draft_delivery_jid
    else if not (binding.operator_jid == "")
    then binding.operator_jid
    else binding.provider_number

unfoldable pub remove_string : List String → String → List String
remove_string [] target = []
remove_string (value ∷ values) target =
    let rest = remove_string values target in if value == target then rest else value ∷ rest

unfoldable pub contains : List String → String → Bool
contains [] value = false
contains (current ∷ values) value = current == value || contains values value

unfoldable pub append_if_missing : List String → String → List String
append_if_missing values value = if contains values value then values else values ++ value ∷ []

unfoldable pub scope_priority : Scope → ℕ
scope_priority scope =
    if scope == scope_case
    then 4
    else if scope == scope_tenant
    then 3
    else if scope == scope_vertical
    then 2
    else 1

unfoldable pub pick_customer_label : Payload → String
pick_customer_label payload =
    if not (string_value payload "customer_name" "" == "")
    then string_value payload "customer_name" ""
    else if not (string_value payload "customer_identifier" "" == "")
    then string_value payload "customer_identifier" ""
    else "the customer"

unfoldable pub draft_body_for_run : CaseRun → String
draft_body_for_run run =
    if run.workflow_slug == "quote_drafting"
    then join "Hi! Thanks for reaching out. We can help with that quote, " (
        join (string_value run.input_payload "customer_identifier" "there")
          ". Could you send 2-3 photos so we can size it correctly?")
    else if string_value run.input_payload "body_text" "" == ""
    then "Hi! Thanks for reaching out. We'll review this and get back to you shortly."
    else "Hi! Thanks for reaching out. We'll review your message and get back to you shortly."
