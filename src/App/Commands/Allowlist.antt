-- ===== src/App/Commands/Allowlist.antt =====
-- AddWhatsAppCustomer and RemoveWhatsAppCustomer of internal/app/app.go.
use victoria.Prelude.{
  String, true, false, some, ◌≡◌, refl, subst, ◌||◌, ◌==◌, eq_iff, List, [], ◌∷◌, ◌++◌,
  if◌then◌else◌, Bool-cases, inl, inr, arith,
}
use victoria.Exec.{ok, throw_if, gets, ◌>>=◌}
use victoria.GoMap.{get}
use victoria.GoMap.Laws.{get-put_self}
use victoria.Domain.{ChannelBinding}
use victoria.Memory.{pair_key}
use victoria.Memory.Tenants.{channel_binding_by_tenant, upsert_channel_binding}
use victoria.App.{World}
use victoria.App.Helpers.{
  normalize_whatsapp_jid, contains, append_if_missing, remove_string, channel_whatsapp,
}
use victoria.App.Core.{in_store, clock_now}
use victoria.App.Commands.{change_allowlist, add_whatsapp_customer, remove_whatsapp_customer}

contains-append :
    (xs : List String) (x y : String) → contains (xs ++ x ∷ []) y ≡ (x == y || contains xs y)
unfolding contains
contains-append [] x y = refl
contains-append (w ∷ xs) x y = ground (arith, contains-append xs x y)

pub contains-append_if_missing :
    (xs : List String) (x y : String)
    → contains (append_if_missing xs x) y ≡ (x == y || contains xs y)
unfolding append_if_missing
contains-append_if_missing xs x y = elim (Bool-cases (contains xs x)) [
  | inr h ↦ rw h (contains-append xs x y)
  | inl h ↦ elim (Bool-cases (x == y)) [
    | inl e ↦ rw h (rw e (subst (λ (z : String). contains xs z ≡ true) ((eq_iff x y).0 e) h))
    | inr e ↦ rw h (rw e refl)
  ]
]

contains-remove_string :
    (xs : List String) (x y : String)
    → contains (remove_string xs x) y ≡ (if x == y then false else contains xs y)
unfolding remove_string contains
contains-remove_string [] x y = ground arith
contains-remove_string (w ∷ xs) x y =
    ground (arith, eq_iff x y, eq_iff w x, eq_iff w y, contains-remove_string xs x y)

module _ (tenant_id customer : String) (w : World) (binding : ChannelBinding) where
  -- the binding that the store has at the place of this one
  abbrev pub Stored : World → (ChannelBinding → Type 0) → Type 0
  Stored v P =
      (b : ChannelBinding) × (get (pair_key binding.channel binding.provider_number)
          v.store.bindings
        ≡ some b)
      × P b

  -- The customer is on the list after an addition and off it after a removal, and for every other
  -- customer the list says what it said.
  pub change_allowlist-contains :
      channel_binding_by_tenant tenant_id channel_whatsapp w.store ≡ (ok binding, w.store)
      → (normalize_whatsapp_jid customer == "") ≡ false
      → Stored (add_whatsapp_customer tenant_id customer w).1 (λ b.
        (y : String)
        → contains b.customer_allowlist y
          ≡ (normalize_whatsapp_jid customer == y || contains binding.customer_allowlist y))
        × Stored (remove_whatsapp_customer tenant_id customer w).1 (λ b.
          (y : String)
          → contains b.customer_allowlist y ≡ (
              if normalize_whatsapp_jid customer == y
              then false
              else contains binding.customer_allowlist y))
  unfolding add_whatsapp_customer remove_whatsapp_customer change_allowlist ◌>>=◌ in_store throw_if
      clock_now gets upsert_channel_binding
  change_allowlist-contains h n =
      rw (h, change_allowlist)
        (rw n (
          (
            _,
            get-put_self _ _ _,
            contains-append_if_missing binding.customer_allowlist (normalize_whatsapp_jid customer),
          ),
          (
            _,
            get-put_self _ _ _,
            contains-remove_string binding.customer_allowlist (normalize_whatsapp_jid customer),
          ),
        ))
