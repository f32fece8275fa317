-- ===== src/App/Commands.antt =====
-- The operator's commands over WhatsApp: handleWhatsAppCommand and the methods behind it, and
-- handlePromoteCommand, of internal/app/app.go.
pub mod Allowlist
pub mod Registration
use Prim.Native.String.{count}
use victoria.Prelude.{
  ◌+◌, ◌*◌, ℕ, String, Bool, true, false, Option, none, some, List, [], ◌∷◌, ◌==◌, ◌&&◌, ◌||◌, not,
  if◌then◌else◌, ltb, eqb, join, length,
}
use victoria.Exec.{
  Result, ok, err, invalid_input, Exec, pure, throw, lift, gets, throw_if, attempt, ignore, ◌>>=◌,
  ◌>>◌,
}
use victoria.Sort.{text_less, sort_by}
use victoria.Text.{trim_space, to_lower, has_prefix, drop_chars, join_with, decimal}
use victoria.Domain.{Time, hour, text, ChannelBinding, InboundMessage, RuleCandidate}
use victoria.Memory.Tenants.{channel_binding_by_tenant, upsert_channel_binding}
use victoria.Memory.Learning.{list_candidates}
use victoria.App.{Env, World}
use victoria.App.Helpers.{
  normalize_whatsapp_jid, contains, append_if_missing, remove_string, channel_whatsapp,
}
use victoria.App.Core.{in_store, clock_now, audit, entries}
use victoria.App.Gateway.{send_notification}
use victoria.App.Gateway.Delivery.{drain_queue}
use victoria.App.Promotion.{Promoted, promote_candidate}

-- AddWhatsAppCustomer, RemoveWhatsAppCustomer: the allowlist changed by `change`
pub change_allowlist :
    (List String → String → List String) → String → String → Exec World (Unit {0})
change_allowlist change tenant_id customer = do
  binding ← in_store (channel_binding_by_tenant tenant_id channel_whatsapp)
  throw_if (normalize_whatsapp_jid customer == "") invalid_input
  now ← clock_now
  in_store (
      upsert_channel_binding (record binding {
        customer_allowlist = change binding.customer_allowlist (normalize_whatsapp_jid customer);
        session_updated = now;
      }))

pub add_whatsapp_customer : String → String → Exec World (Unit {0})
unfolding change_allowlist
add_whatsapp_customer = change_allowlist append_if_missing

pub remove_whatsapp_customer : String → String → Exec World (Unit {0})
unfolding change_allowlist
remove_whatsapp_customer = change_allowlist remove_string

pub list_whatsapp_customers : String → Exec World (List String)
list_whatsapp_customers tenant_id = do
  binding ← in_store (channel_binding_by_tenant tenant_id channel_whatsapp)
  pure (sort_by text_less binding.customer_allowlist)

unfoldable register_whatsapp_command_identity : String → String → Exec World (Unit {0})
register_whatsapp_command_identity tenant_id jid = do
  binding ← in_store (channel_binding_by_tenant tenant_id channel_whatsapp)
  throw_if (normalize_whatsapp_jid jid == "") invalid_input
  now ← clock_now
  in_store (
      upsert_channel_binding (record binding {
        command_identities =
            append_if_missing binding.command_identities (normalize_whatsapp_jid jid);
        session_updated = now;
      }))

abbrev pub register_prefix : String
register_prefix = "register me as operator "

-- strings.TrimSpace(clean[len(prefix):])
abbrev pub argument : String → String → String
argument prefix clean = trim_space (drop_chars (count prefix) clean)

abbrev pub is_none {ℓ} : {A : Type ℓ} → Option A → Bool
is_none none = true
is_none (some a) = false

-- the test of the secret
unfoldable pub secret_accepted : ChannelBinding → String → Bool
secret_accepted binding secret =
    not (binding.command_registration_secret == "")
    && (is_none binding.command_secret_consumed_at && secret == binding.command_registration_secret)

-- the loop of handlePromoteCommand: the latest of the candidates under review; `none` is the zero value
abbrev later : Option Time → Option Time → Bool
later (some a) (some b) = ltb b a
later _ _ = false

abbrev picked_id : Option RuleCandidate → String
picked_id none = ""
picked_id (some c) = c.id

abbrev picked_at : Option RuleCandidate → Option Time
picked_at none = none
picked_at (some c) = c.under_review_at

pick_candidate : Option RuleCandidate → List RuleCandidate → Option RuleCandidate
pick_candidate pick [] = pick
pick_candidate pick (c ∷ cs) =
    pick_candidate
      (if c.status == "under_review"
          && (picked_id pick == "" || later c.under_review_at (picked_at pick))
        then some c
        else pick)
      cs

module _ (env : Env) where
  register_operator : String → ChannelBinding → InboundMessage → String → String → Exec World Bool
  register_operator tenant_id binding msg sender_jid secret =
      if not (secret_accepted binding secret)
      then (do
        ignore (
            audit env tenant_id "command_registration_rejected" "operator" sender_jid
              "channel_binding" channel_whatsapp none
              (entries (("reason", text "invalid_secret") ∷ []))
              ("command-registration-rejected" ∷ tenant_id ∷ sender_jid ∷ msg.provider_message_id
                ∷ []))
        send_notification env tenant_id "unknown command"
        pure true)
      else (do
        now ← clock_now
        in_store (
            upsert_channel_binding (record binding {
              command_identities = append_if_missing binding.command_identities sender_jid;
              command_secret_consumed_at = some now;
              session_updated = now;
            }))
        drain_queue env tenant_id channel_whatsapp
        send_notification env tenant_id "✓ registered as operator"
        pure true)

  -- "pause" and "resume"
  pause_until : String → ChannelBinding → (Time → Option Time) → String → Exec World Bool
  pause_until tenant_id binding until reply = do
    now ← clock_now
    in_store (
        upsert_channel_binding
          (record binding { customer_intake_paused_until = until now; session_updated = now }))
    send_notification env tenant_id reply
    pure true

  -- whether the message was a command
  unfoldable pub handle_whatsapp_command :
      String → ChannelBinding → InboundMessage → String → Exec World Bool
  unfolding register_operator pause_until secret_accepted list_whatsapp_customers
  handle_whatsapp_command tenant_id binding msg sender_jid =
      let clean = trim_space msg.free_text in
      let lower = to_lower clean in
      if has_prefix lower register_prefix
      then register_operator tenant_id binding msg sender_jid (argument register_prefix clean)
      else if not (msg.is_from_me || contains binding.command_identities sender_jid)
      then pure false
      else if has_prefix lower "add customer "
      then (do
        add_whatsapp_customer tenant_id (argument "add customer " clean)
        send_notification env tenant_id "✓ added"
        pure true)
      else if has_prefix lower "remove customer "
      then (do
        remove_whatsapp_customer tenant_id (argument "remove customer " clean)
        send_notification env tenant_id "✓ removed"
        pure true)
      else if lower == "list customers"
      then (do
        customers ← list_whatsapp_customers tenant_id
        send_notification env tenant_id (
            if eqb (length customers) 0
            then "No customers are allowlisted."
            else join_with "\n" customers)
        pure true)
      else if lower == "pause"
      then pause_until tenant_id binding (λ now. some (now + 24 * hour)) "✓ paused"
      else if lower == "resume"
      then pause_until tenant_id binding (λ _. none) "✓ resumed"
      else pure false

  promotion_message : Promoted → String
  promotion_message promoted =
      join "✅ *Rule promoted.*\n\nFrom now on, when this case pattern matches I'll *" (
        join (promoted.rule).recommended_action (
          join "* (instead of the workflow default).\n\nSkillVersion bumped to v" (
            join (decimal (promoted.version).version) (
              join ", " (
                join (decimal (length (promoted.version).rule_manifest))
                  " active rule(s) total.")))))

  -- the answer to the operator, and the error if there is one
  tell_promotion : String → Result Promoted → Exec World (Unit {0})
  unfolding promotion_message
  tell_promotion tenant_id (ok promoted) =
      send_notification env tenant_id (promotion_message promoted)
  tell_promotion tenant_id (err e) = do
    send_notification env tenant_id (join "Promotion failed: " (env.error_text e))
    throw e

  unfoldable pub handle_promote_command : String → String → Exec World (Unit {0})
  unfolding tell_promotion pick_candidate
  handle_promote_command tenant_id operator_id = do
    candidates ← in_store (list_candidates tenant_id)
    let id = picked_id (pick_candidate none candidates)
    if id == ""
        then send_notification env tenant_id
            "Nothing is ready for promotion yet — no candidate is under_review."
        else (do
          outcome ← attempt (
              promote_candidate env tenant_id id (join "wa:" operator_id)
                "promoted via WhatsApp command")
          tell_promotion tenant_id outcome)
