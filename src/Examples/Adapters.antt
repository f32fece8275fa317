-- ===== src/Examples/Adapters.antt =====
-- One run of each property about the adapters, the HTTP interface and the agent's client.
use victoria.Prelude.{
  ℕ, ◌+◌, ◌≤◌, String, List, false, none, some, ◌≡◌, refl, [], ◌∷◌, ◌==◌, ◌&&◌, not, if◌then◌else◌,
  arith,
}
use Prim.Native.Nat.{◌^◌, ◌%◌}
use victoria.Exec.{ok, err, failed, not_found, ◌>>=◌, for_each}
use victoria.Text.{join_with, after_first, decimal, before_char, trim_space}
use victoria.Memory.Tenants.{channel_binding_by_tenant}
use victoria.GoMap.{first, get, select, values}
use victoria.Domain.{
  sha256_key, parse_inbound_mode, valid_action, ButtonSpec, InboundMessage, ChannelBinding,
}
use victoria.Memory.{pair_key}
use victoria.App.Helpers.{operator_recipient, contains}
use victoria.App.Core.{in_store, clock_now, audit}
use victoria.App.Outbound.{has_adapter, adapter_send}
use victoria.Memory.Queue.{list_outbound_queue, queued_for}
use victoria.Memory.Packets.{mark_review_packet_delivered, get_review_packet}
use victoria.Memory.Audit.{create_audit_event}
use victoria.Sort.{sort_by}
use victoria.Examples.Inputs.{packet}
use victoria.App.{World, AgentRequest, AgentResult}
use victoria.App.Gateway.Delivery.{drain_entries}
use victoria.App.Gateway.Delivery.Enqueued.{depth_of}
use victoria.App.Gateway.Delivery.Drained.{drain_entries-empties}
use victoria.App.Telegram.{handle_telegram_inbound}
use victoria.App.Telegram.Misrouted.{handle_telegram_inbound-unbound}
use victoria.Agent.{Service, Agent, propose}
use victoria.Agent.Allowed.{Safe, propose-Safe}
use victoria.Http.{Server, admin, gateway_inbound, reissue_secret, json, bad_json, failure}
use victoria.Http.Errors.{respond}
use victoria.Http.Admin.{serve_admin, serve_gateway_inbound}
use victoria.Http.Routes.{serve}
use victoria.Http.Routes.Guarded.{guarded, serve-guarded}
use victoria.Intent.{extract_packet_reference}
use victoria.Intent.References.{extract_packet_reference-with_tag}
use victoria.Rules.Fuzzy.{levenshtein}
use victoria.Rules.Fuzzy.Edits.{Edits, levenshtein-least}
use victoria.Whatsapp.Echoes.{SentIds, new_sent_ids, replicate, add_all, has}
use victoria.Whatsapp.Echoes.Recent.{add_all-remembers}
use victoria.Whatsapp.Echoes.Windows.{remember_all}
use victoria.Whatsapp.Messages.{with_tag}
use victoria.Whatsapp.Replies.{atoi, button_at, button_for_reply}
use victoria.Whatsapp.Replies.Numbers.{atoi-decimal, button_for_reply-decimal}
use victoria.Whatsapp.Sweep.{Secret, sweep_now}
use victoria.Whatsapp.Sweep.Kept.{spared, all_readable, sweep_now-eq-select}
use victoria.Examples.Data.{floats, env, world, binding, store}

abbrev secrets : List Secret
secrets =
    record { our_jid = "65111@s.whatsapp.net"; chat_jid = "61@s.whatsapp.net" }
    ∷ record { our_jid = "65111@s.whatsapp.net"; chat_jid = "99@s.whatsapp.net" }
    ∷ []

-- the second one has no address in its stored form, so the third one is not swept
abbrev bindings : List ChannelBinding
bindings =
    binding ∷ record binding { operator_jid = "" } ∷ record binding { customer_allowlist = [] } ∷ []

sweep_now-eq-select_example : sweep_now (λ _. false) bindings secrets ≡ (
  if all_readable bindings then ok tt else err failed,
  select (spared (λ _. false) bindings) secrets,
)
sweep_now-eq-select_example = sweep_now-eq-select (λ _. false) bindings secrets

abbrev server : Server
server = record { whatsapp = none; gateway_inbound_token = "gate"; admin_token = "root" }

serve-guarded_example :
    (serve env (ok "hex") some server "Bearer admin:root" (admin (reissue_secret (json "t1")))
      ≡ guarded "root" "Bearer admin:"
          (respond 503 (failure "admin_disabled" "VICTORIA_ADMIN_TOKEN is not configured" none))
          "Bearer admin:root"
          (serve_admin env (ok "hex") (reissue_secret (json "t1"))))
    × (serve env (ok "hex") some server "Bearer admin:root" (gateway_inbound (bad_json "eof"))
        ≡ guarded "gate" "Bearer gw:"
            (respond 503 (
              failure "gateway_inbound_disabled" "VICTORIA_GATEWAY_INBOUND_TOKEN is not configured"
                none))
            "Bearer admin:root"
            (serve_gateway_inbound env (bad_json "eof")))
serve-guarded_example =
    serve-guarded env (ok "hex") some server "Bearer admin:root" (reissue_secret (json "t1"))
      (bad_json "eof")

extract_packet_reference-with_tag_example :
    extract_packet_reference (with_tag "Please review." "pk1") ≡ "pk1"
unfolding before_char
extract_packet_reference-with_tag_example =
    extract_packet_reference-with_tag "Please review." "pk1" refl refl

abbrev sent_before : List String
sent_before = "a" ∷ "b" ∷ "a" ∷ "c" ∷ []

add_all-remembers_example :
    (s : SentIds) × (add_all sent_before (new_sent_ids 2) ≡ some s)
    × ((id : String)
        → has id s ≡ (not (id == "") && contains (remember_all sent_before (replicate 2 "")) id))
add_all-remembers_example = add_all-remembers 2 sent_before (omega arith)

atoi-decimal_example : atoi (decimal 18446744073709551617) ≡ some (18446744073709551617 % 2 ^ 64)
atoi-decimal_example = atoi-decimal 18446744073709551617

abbrev buttons : List ButtonSpec
buttons =
    record { id = "approve"; label = "Approve" }
    ∷ record { id = "add_note"; label = "Add note" }
    ∷ []

button_for_reply-decimal_example : button_for_reply (decimal (1 + 1)) buttons ≡ button_at buttons 1
button_for_reply-decimal_example = button_for_reply-decimal 1 buttons (omega arith) (omega arith)

levenshtein-least_example :
    Edits (1 ∷ 2 ∷ 3 ∷ []) (1 ∷ 3 ∷ []) (levenshtein (1 ∷ 2 ∷ 3 ∷ []) (1 ∷ 3 ∷ []))
    × ((n : ℕ)
        → Edits (1 ∷ 2 ∷ 3 ∷ []) (1 ∷ 3 ∷ []) n
        → levenshtein (1 ∷ 2 ∷ 3 ∷ []) (1 ∷ 3 ∷ []) ≤ n)
levenshtein-least_example = levenshtein-least (1 ∷ 2 ∷ 3 ∷ []) (1 ∷ 3 ∷ [])

abbrev queued : World
queued = record world {
  store = record store { packets = ("pk1", record packet { packet_id = "pk1" }) ∷ [] };
}

drain_entries-empties_example :
    depth_of "t1" "whatsapp" (drain_entries env "t1" "whatsapp" queued).1.store.outbound_queue ≡ 0
unfolding drain_entries ◌>>=◌ in_store list_outbound_queue for_each sort_by select values queued_for
    get_review_packet get clock_now has_adapter contains first channel_binding_by_tenant
    operator_recipient parse_inbound_mode adapter_send mark_review_packet_delivered audit
    create_audit_event sha256_key join_with
drain_entries-empties_example = drain_entries-empties env "t1" "whatsapp" queued (refl, tt) refl

abbrev asked : AgentRequest
asked = record {
  workflow_slug = "quote_drafting";
  decision_type = "send_or_hold";
  default_action = "hold";
  allowed_actions = "hold" ∷ "send" ∷ [];
  payload = none;
}

abbrev service : Service
service = record {
  print_payload = λ p. "{}";
  post = λ url key model system user. ok (200, "body");
  decode_response = λ raw. ok (record { error = none; choices = "proposal" ∷ [] });
  decode_proposal = λ raw. ok (record {
    facts = record { label = " "; value = "v"; confidence = 1 } ∷ [];
    proposed_action = "refund";
    draft_reply = "ok";
    reasoning = "";
  });
  without_slashes = λ s. s;
}

abbrev agent : Agent
agent = record { key = "key"; base = "https://agent"; model = "m" }

abbrev held : AgentResult
held = record { facts = []; proposed_action = "hold"; draft_reply = "ok"; reasoning = "" }

propose-Safe_example : Safe asked held
unfolding contains propose trim_space
propose-Safe_example = propose-Safe floats asked refl service "system" agent refl

abbrev over_telegram : ChannelBinding
over_telegram = record binding { channel = "telegram"; provider_number = "tg1" }

abbrev telegram_world : World
telegram_world = record world {
  store = record store { bindings = (pair_key "telegram" "tg1", over_telegram) ∷ [] };
}

abbrev tapped : InboundMessage
tapped = record {
  sender_identifier = "op1";
  sender_jid = "";
  provider_message_id = "m7";
  channel = "telegram";
  button_payload = "approve";
  free_text = "[packet:pk1]";
  received_at = 9;
  is_from_me = false;
}

handle_telegram_inbound-unbound_example :
    (handle_telegram_inbound env "t1" tapped telegram_world).0 ≡ err not_found
unfolding channel_binding_by_tenant first values contains valid_action trim_space
    extract_packet_reference after_first before_char get pair_key
handle_telegram_inbound-unbound_example =
    handle_telegram_inbound-unbound env "t1" over_telegram tapped telegram_world refl refl refl refl
      refl
