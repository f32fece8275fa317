-- ===== src/Memory/Tenants.antt =====
-- Tenants, workflow templates and channel bindings.
use victoria.Prelude.{String, Bool, Option, none, some, List, [], ◌∷◌, ◌==◌, ◌&&◌, if◌then◌else◌}
use victoria.Exec.{ok, err, not_found, duplicate, Exec}
use victoria.GoMap.{GoMap, get, put, values, select, first}
use victoria.Sort.{text_less, sort_by}
use victoria.Domain.{
  Time, SessionStatus, Tenant, WorkflowTemplate, ProvisioningManifest, ChannelBinding, SkillVersion,
}
use victoria.Memory.{Store, pair_key}

-- the manifest is not stored
unfoldable pub create_tenant :
    Tenant → ProvisioningManifest → ChannelBinding → SkillVersion → Exec Store (Unit {0})
create_tenant tenant manifest binding initial s = elim (get tenant.id s.tenants) [
  | some _ ↦ (err duplicate, s)
  | none ↦ (
    ok tt,
    record s {
      tenants = put tenant.id tenant s.tenants;
      bindings = put (pair_key binding.channel binding.provider_number) binding s.bindings;
      skill_versions = put initial.id initial s.skill_versions;
      active_sv = put (pair_key initial.tenant_id initial.workflow_slug) initial.id s.active_sv;
    },
  )
]

unfoldable pub get_tenant : String → Exec Store Tenant
get_tenant tenant_id s = elim (get tenant_id s.tenants) [
  | some tenant ↦ (ok tenant, s)
  | none ↦ (err not_found, s)
]

unfoldable pub list_tenants : Exec Store (List Tenant)
list_tenants s = (ok (sort_by (λ (a b : Tenant). text_less a.id b.id) (values s.tenants)), s)

unfoldable pub upsert_workflow_template : WorkflowTemplate → Exec Store (Unit {0})
upsert_workflow_template tmpl s = (ok tt, record s { templates = put tmpl.slug tmpl s.templates })

unfoldable pub get_workflow_template : String → Exec Store WorkflowTemplate
get_workflow_template slug s = elim (get slug s.templates) [
  | some tmpl ↦ (ok tmpl, s)
  | none ↦ (err not_found, s)
]

unfoldable pub upsert_channel_binding : ChannelBinding → Exec Store (Unit {0})
upsert_channel_binding binding s = (
  ok tt,
  record s { bindings = put (pair_key binding.channel binding.provider_number) binding s.bindings },
)

unfoldable pub channel_binding_by_provider : String → String → Exec Store ChannelBinding
channel_binding_by_provider channel provider_number s =
    elim (get (pair_key channel provider_number) s.bindings) [
      | some binding ↦ (ok binding, s)
      | none ↦ (err not_found, s)
    ]

-- the test of the loops over the bindings of a tenant
unfoldable pub binds : String → String → ChannelBinding → Bool
binds tenant_id channel binding = binding.tenant_id == tenant_id && binding.channel == channel

unfoldable pub channel_binding_by_tenant : String → String → Exec Store ChannelBinding
unfolding binds
channel_binding_by_tenant tenant_id channel s =
    elim (first (binds tenant_id channel) (values s.bindings)) [
      | some binding ↦ (ok binding, s)
      | none ↦ (err not_found, s)
    ]

-- the loop of UpdateChannelSessionStatus, which stops at the first binding that fits
update_first_binding :
    String → String → SessionStatus → Time → GoMap ChannelBinding → Option (GoMap ChannelBinding)
update_first_binding tenant_id channel status now [] = none
update_first_binding tenant_id channel status now ((k, b) ∷ m) =
    let rest = update_first_binding tenant_id channel status now m in
    if binds tenant_id channel b
    then some ((k, record b { session_status = status; session_updated = now }) ∷ m)
    else elim rest [ none ↦ none | some m' ↦ some ((k, b) ∷ m') ]

-- `now` is what the call of time.Now answers
unfoldable pub update_channel_session_status :
    String → String → SessionStatus → Time → Exec Store (Unit {0})
unfolding update_first_binding
update_channel_session_status tenant_id channel status now s =
    elim (update_first_binding tenant_id channel status now s.bindings) [
      | some bindings ↦ (ok tt, record s { bindings = bindings })
      | none ↦ (err not_found, s)
    ]

unfoldable list_channel_bindings_by_channel : String → Exec Store (List ChannelBinding)
list_channel_bindings_by_channel channel s = (
  ok (
      sort_by (λ (a b : ChannelBinding). text_less a.tenant_id b.tenant_id)
        (select (λ (b : ChannelBinding). b.channel == channel) (values s.bindings))),
  s,
)
