-- ===== src/Examples/Administration.antt =====
-- One run of each property about what the administrators and the operator ask for.
use victoria.Prelude.{
  none, map, String, true, false, some, ◌≡◌, refl, List, [], ◌∷◌, ◌++◌, ◌&&◌, ltb, length,
  if◌then◌else◌,
}
use victoria.Memory.Tenants.{create_tenant, upsert_channel_binding, upsert_workflow_template}
use victoria.Memory.Skills.{create_skill_version}
use victoria.Memory.Audit.{create_audit_event}
use victoria.Text.{join_with, decimal, trim_space, to_lower, has_prefix, drop_chars}
use victoria.GoMap.{get}
use victoria.Domain.{ChannelBinding, sha256_key, AuditEvent, InboundMessage}
use victoria.Memory.{pair_key}
use victoria.App.Helpers.{contains}
use victoria.App.Commands.{secret_accepted, handle_whatsapp_command}
use victoria.App.Commands.Registration.{registered, handle_whatsapp_command-once}
use victoria.Exec.{ok, ◌>>=◌, for_each}
use victoria.App.Core.{in_store, clock_now, new_id, audit}
use victoria.App.Provisioning.{Provisioned, provision_tenant}
use victoria.App.Provisioning.Paired.{provision_tenant-pairs}
use victoria.App.Queries.{Aggregates, audit_events_of, build_vertical_aggregates}
use victoria.App.Queries.Newest.{asked_for, AllBefore, audit_events_of-newest}
use victoria.App.Queries.Redacted.{
  AllRedacted, report, counted, tenants_of, build_vertical_aggregates-redacted,
}
use victoria.App.{World}
use victoria.Examples.Learning.{candidate}
use victoria.Examples.Data.{env, store, world, binding, approval}
use victoria.Examples.Inputs.{stranger}

abbrev learned : World
learned = record world { store = record store { candidates = ("rc1", candidate) ∷ [] } }

build_vertical_aggregates-redacted_example :
    (found : Aggregates) × ((build_vertical_aggregates env "trades" "quote_drafting" learned).0
      ≡ ok found)
    × (found.safe
        ≡ map report
            (counted "trades" "quote_drafting" false learned.store.candidates (tenants_of learned)))
    × (found.quarantined
        ≡ map report
            (counted "trades" "quote_drafting" true learned.store.candidates (tenants_of learned)))
    × AllRedacted found.safe
    × AllRedacted found.quarantined
build_vertical_aggregates-redacted_example =
    build_vertical_aggregates-redacted "trades" "quote_drafting" env learned

abbrev audited : World
audited = record world {
  store = record store {
    audit_events =
        ("ae1", approval)
        ∷ ("ae2", record approval { id = "ae2"; event_type = "packet_sent" })
        ∷ ("ae3", record approval { id = "ae3"; occurred_at = 1 })
        ∷ [];
  };
}

audit_events_of-newest_example :
    (kept front : List AuditEvent) × ((audit_events_of "t1" ("approval_received" ∷ []) 1 audited).0
      ≡ ok kept)
    × (front ++ kept ≡ asked_for "t1" ("approval_received" ∷ []) 1 audited)
    × AllBefore front kept
    × (length kept ≡ (
        if ltb 0 1 && ltb 1 (length (asked_for "t1" ("approval_received" ∷ []) 1 audited))
        then 1
        else length (asked_for "t1" ("approval_received" ∷ []) 1 audited)))
audit_events_of-newest_example = audit_events_of-newest "t1" ("approval_received" ∷ []) 1 audited

abbrev asking : String → InboundMessage
asking words = record stranger { free_text = words }

handle_whatsapp_command-once_example :
    (get
        (pair_key "whatsapp" "65999")
        (handle_whatsapp_command env "t1" binding
          (asking "register me as operator secret")
          "op@s"
          world).1.store.bindings
      ≡ some (registered binding "op@s" world))
    × (contains (registered binding "op@s" world).command_identities "op@s" ≡ true)
    × ((handle_whatsapp_command env "t1"
          (registered binding "op@s" world)
          (asking "register me as operator secret")
          "thief@s"
          world).1.store.bindings
        ≡ world.store.bindings)
unfolding has_prefix to_lower trim_space secret_accepted drop_chars
handle_whatsapp_command-once_example =
    handle_whatsapp_command-once env "t1" binding (asking "register me as operator secret") "op@s"
      world (asking "register me as operator secret") "thief@s" world refl refl refl

abbrev given : Provisioned
given = record {
  tenant = record {
    id = "t5";
    name = "New";
    vertical = "trades";
    status = "active";
    default_mode = "sandbox";
    created_at = 10;
  };
  manifest = record {
    tenant_id = "t5";
    hermes_version = "0.3.4";
    mode = "sandbox";
    workflow_templates = "enquiry_triage" ∷ "quote_drafting" ∷ "invoice_handling" ∷ [];
    mcp_endpoints =
        ("sandbox_email", "http://localhost:3001")
        ∷ ("sandbox_drive", "http://localhost:3002")
        ∷ ("sandbox_invoice", "http://localhost:3003")
        ∷ [];
    skill_version_endpoint = "/internal/skill-versions/active";
    vertical = "trades";
    whatsapp_command_secret = "feed";
  };
}

-- the number is the one of the first tenant
provision_tenant-pairs_example :
    (b : ChannelBinding) × (get
        (pair_key "whatsapp" "65999")
        (provision_tenant env (ok "feed") " New" "trades" "65999" "op2" world).1.store.bindings
      ≡ some b)
    × (b.tenant_id ≡ "t5")
    × (b.operator_id ≡ "op2")
    × (b.inbound_mode ≡ "read_only")
    × (b.consent_acknowledged_at ≡ none)
    × (b.command_identities ≡ [])
    × (b.customer_allowlist ≡ [])
    × (b.command_registration_secret ≡ "feed")
    × (b.command_secret_consumed_at ≡ none)
unfolding provision_tenant ◌>>=◌ clock_now new_id trim_space for_each in_store
    upsert_workflow_template create_tenant get decimal upsert_channel_binding create_skill_version
    audit create_audit_event sha256_key join_with
provision_tenant-pairs_example =
    provision_tenant-pairs env (ok "feed") " New" "trades" "65999" "op2" world given refl
