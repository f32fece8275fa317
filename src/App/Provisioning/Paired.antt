-- ===== src/App/Provisioning/Paired.antt =====
-- The WhatsApp binding that a provisioned tenant gets.
use victoria.Prelude.{none, [], String, ◌≡◌, refl, ap, sym, ◌∙◌, some}
use victoria.Exec.{Result, ok, gets, lift, pure}
use victoria.Exec.Laws.{>>=-through}
use victoria.Exec.Preserves.{Preserves, preserves_rules}
use victoria.GoMap.{get}
use victoria.GoMap.Laws.{get-put_self}
use victoria.Domain.{ChannelBinding, Time, Tenant}
use victoria.Memory.{pair_key}
use victoria.Memory.Tenants.{upsert_channel_binding}
use victoria.Memory.Skills.{create_skill_version}
use victoria.App.{Env, World}
use victoria.App.Core.{in_store, clock_now}
use victoria.App.Helpers.{channel_whatsapp}
use victoria.App.Frame.{Frame}
use victoria.App.Frame.Fields.{SamePart, Frame-of_part, bindings_of, bindings_of-IsBlind}
use victoria.App.Provisioning.{
  Provisioned, whatsapp_binding, first_version, first_version_for, new_command_secret, conclude,
  set_up_whatsapp, provision_tenant,
}

ok_inj : {A : Type 0} (a b : A) → ok a ≡ ok b → a ≡ b
ok_inj a b h = cc

module _ (env : Env) (random_hex : Result String) where
  frame : Frame env (SamePart bindings_of)
  frame = Frame-of_part env bindings_of bindings_of-IsBlind

  create_kept :
      (id t slug : String) (now : Time)
      → Preserves
          (SamePart bindings_of)
          (in_store (create_skill_version (first_version id t slug now)))
  unfolding in_store create_skill_version
  create_kept id t slug now = record { at = λ w. refl }

  first_version_kept :
      (t : String) (now : Time) (slug : String)
      → Preserves (SamePart bindings_of) (first_version_for env t now slug)
  unfolding first_version_for
  first_version_kept t now slug =
      search (preserves_rules, frame.order, frame.new_id_kept, create_kept) depth 12

  conclude_kept :
      (tenant : Tenant) (now : Time) (secret : String)
      → Preserves (SamePart bindings_of) (conclude env random_hex tenant now secret)
  unfolding conclude
  conclude_kept tenant now secret =
      search (preserves_rules, frame.order, first_version_kept, frame.audit_kept) depth 14

  conclude-answer :
      (tenant : Tenant) (now : Time) (secret : String) (w : World) (done : Provisioned)
      → (conclude env random_hex tenant now secret w).0 ≡ ok done
      → (tenant ≡ done.tenant) × (secret ≡ done.manifest.whatsapp_command_secret)
  unfolding conclude pure
  conclude-answer tenant now secret w done h =
      let (_, _, _, h1) = >>=-through _ _ w h in
      let (_, _, _, h2) = >>=-through _ _ _ h1 in
      let e = ok_inj _ done h2 in
      (
        ap (λ (d : Provisioned). d.tenant) e,
        ap (λ (d : Provisioned). d.manifest.whatsapp_command_secret) e,
      )

  set_up-pairs :
      (tenant : Tenant) (number operator_id : String) (now : Time) (w : World) (done : Provisioned)
      → (set_up_whatsapp env random_hex tenant number operator_id now w).0 ≡ ok done
      → get
          (pair_key channel_whatsapp number)
          (set_up_whatsapp env random_hex tenant number operator_id now w).1.store.bindings
        ≡ some (
            whatsapp_binding done.tenant.id number operator_id now
              done.manifest.whatsapp_command_secret)
  unfolding set_up_whatsapp new_command_secret lift in_store upsert_channel_binding
  set_up-pairs tenant number operator_id now w done h =
      let (secret, _, e1, h1) = >>=-through _ _ w h in
      let (_, _, e2, h2) = >>=-through _ _ _ h1 in
      let (same_tenant, same_secret) = conclude-answer tenant now secret _ done h2 in
      ap
        (λ (r : Result Provisioned × World).
          get (pair_key channel_whatsapp number) r.1.store.bindings)
        (e1 ∙ e2)
      ∙ (ap (get (pair_key channel_whatsapp number)) ((conclude_kept tenant now secret).at _)
          ∙ (get-put_self _ _ _ ∙ λ i.
              some (whatsapp_binding (same_tenant i).id number operator_id now (same_secret i))))

  -- the binding that stands at the number behind a call
  provision_tenant-binding :
      (name vertical number operator_id : String) (w : World) (done : Provisioned)
      → (provision_tenant env random_hex name vertical number operator_id w).0 ≡ ok done
      → get
          (pair_key channel_whatsapp number)
          (provision_tenant env random_hex name vertical number operator_id w).1.store.bindings
        ≡ some (
            whatsapp_binding done.tenant.id number operator_id w.now
              done.manifest.whatsapp_command_secret)
  unfolding provision_tenant clock_now gets
  provision_tenant-binding name vertical number operator_id w done h =
      let (now, told, e0, h0) = >>=-through _ _ w h in
      let (_, _, e1, h1) = >>=-through _ _ _ h0 in
      let (_, _, e2, h2) = >>=-through _ _ _ h1 in
      let (_, _, e3, h3) = >>=-through _ _ _ h2 in
      let (_, _, e4, h4) = >>=-through _ _ _ h3 in
      let (_, _, e5, h5) = >>=-through _ _ _ h4 in
      ap
        (λ (r : Result Provisioned × World).
          get (pair_key channel_whatsapp number) r.1.store.bindings)
        (e0 ∙ (e1 ∙ (e2 ∙ (e3 ∙ (e4 ∙ e5)))))
      ∙ (set_up-pairs _ number operator_id now _ done h5
          ∙ ap
              (λ (t : Time). some (
                whatsapp_binding done.tenant.id number operator_id t
                  done.manifest.whatsapp_command_secret))
              (sym (ok_inj w.now now told)))

  -- Whatever stood at the number before, a tenant that is provisioned has a WhatsApp binding at it
  -- that is read-only, has no consent, no command identity and no allowlisted customer, and takes
  -- the secret of the manifest, which nobody has used. A binding of another tenant at the same number
  -- is lost by that.
  pub provision_tenant-pairs :
      (name vertical number operator_id : String) (w : World) (done : Provisioned)
      → (provision_tenant env random_hex name vertical number operator_id w).0 ≡ ok done
      → (b : ChannelBinding) × (get
            (pair_key "whatsapp" number)
            (provision_tenant env random_hex name vertical number operator_id w).1.store.bindings
          ≡ some b)
        × (b.tenant_id ≡ done.tenant.id)
        × (b.operator_id ≡ operator_id)
        × (b.inbound_mode ≡ "read_only")
        × (b.consent_acknowledged_at ≡ none)
        × (b.command_identities ≡ [])
        × (b.customer_allowlist ≡ [])
        × (b.command_registration_secret ≡ done.manifest.whatsapp_command_secret)
        × (b.command_secret_consumed_at ≡ none)
  provision_tenant-pairs name vertical number operator_id w done h = (
    _,
    provision_tenant-binding name vertical number operator_id w done h,
    refl,
    refl,
    refl,
    refl,
    refl,
    refl,
    refl,
    refl,
  )
