-- ===== src/App/Outbound/Isolation.antt =====
-- EnforceA0OutboundGuard of internal/channel/whatsapp/adapter.go and the sends behind it.
use victoria.Prelude.{
  and_false, String, true, false, ◌≡◌, ◌⊎◌, refl, ap, sym, ◌==◌, not, eq_iff, Bool-cases, inl, inr,
}
use victoria.Exec.{ok, err, failed, gets, ignore, throw, ◌>>=◌}
use victoria.Domain.{parse_inbound_mode, ChannelBinding, OutboundMessage, inbound_read_only}
use victoria.App.{Env, World}
use victoria.App.Helpers.{normalize_whatsapp_jid}
use victoria.App.Core.{clock_now}
use victoria.App.Core.Laws.{audit-frame}
use victoria.App.Outbound.{
  operator_of, guard_passes, enforce_a0_outbound_guard, record_outbound_blocked,
  send_outbound_with_binding,
}

-- an address that the operator of the binding reads: none, the operator's own, or the drafts'
abbrev pub IsOwn : ChannelBinding → String → Type 0
IsOwn binding recipient =
    (normalize_whatsapp_jid recipient ≡ "")
    ⊎ ((normalize_whatsapp_jid recipient ≡ operator_of binding)
        ⊎ (normalize_whatsapp_jid recipient ≡ normalize_whatsapp_jid binding.draft_delivery_jid))

blocked :
    (binding : ChannelBinding) (recipient : String)
    → binding.inbound_mode ≡ inbound_read_only
    → (normalize_whatsapp_jid recipient == "") ≡ false
    → (normalize_whatsapp_jid recipient == operator_of binding) ≡ false
    → (normalize_whatsapp_jid recipient == normalize_whatsapp_jid binding.draft_delivery_jid)
      ≡ false
    → guard_passes binding recipient ≡ false
unfolding guard_passes
blocked binding recipient h e f d =
    rw ((eq_iff _ _).1 h) (
      rw e
        (rw f (rw d (and_false (not (normalize_whatsapp_jid binding.draft_delivery_jid == ""))))))

pub guard_passes-IsOwn :
    (binding : ChannelBinding) (recipient : String)
    → binding.inbound_mode ≡ inbound_read_only
    → guard_passes binding recipient ≡ true
    → IsOwn binding recipient
unfolding guard_passes
guard_passes-IsOwn binding recipient h g =
    elim (Bool-cases (normalize_whatsapp_jid recipient == "")) [
      | inl e ↦ inl ((eq_iff _ _).0 e)
      | inr e ↦ elim (Bool-cases (normalize_whatsapp_jid recipient == operator_of binding)) [
        | inl f ↦ inr (inl ((eq_iff _ _).0 f))
        | inr f ↦
            elim (Bool-cases (
              normalize_whatsapp_jid recipient
              == normalize_whatsapp_jid binding.draft_delivery_jid)) [
                | inl d ↦ inr (inr ((eq_iff _ _).0 d))
                | inr d ↦ cc (sym g, blocked binding recipient h e f d)
              ]
      ]
    ]

-- a guard that returns has passed
pub enforce-passes :
    (env : Env) (binding : ChannelBinding) (msg : OutboundMessage) (w : World)
    → (enforce_a0_outbound_guard env binding msg w).0 ≡ ok tt
    → guard_passes binding msg.recipient_identifier ≡ true
unfolding enforce_a0_outbound_guard ◌>>=◌ ignore throw
enforce-passes env binding msg w h =
    elim (Bool-cases (guard_passes binding msg.recipient_identifier)) [
      | inl g ↦ g
      | inr g ↦
          let stopped : (enforce_a0_outbound_guard env binding msg w).0 ≡ err failed = rw g refl in
          cc (h, stopped)
    ]

module _ (env : Env) (binding : ChannelBinding) (msg : OutboundMessage) (w : World) where
  -- what the guard refuses reaches no adapter
  send_outbound_with_binding-blocked :
      guard_passes binding msg.recipient_identifier ≡ false
      → ((send_outbound_with_binding env binding msg w).0 ≡ err failed)
        × (((send_outbound_with_binding env binding msg w).1.outbox ≡ w.outbox)
            × ((send_outbound_with_binding env binding msg w).1.sends_made ≡ w.sends_made))
  unfolding send_outbound_with_binding enforce_a0_outbound_guard ◌>>=◌ record_outbound_blocked
      clock_now gets
  send_outbound_with_binding-blocked g = rw g (
    refl,
    (
      ap (λ (v : World). v.outbox) (audit-frame env _ _ _ _ _ _ _ _ _ w),
      ap (λ (v : World). v.sends_made) (audit-frame env _ _ _ _ _ _ _ _ _ w),
    ),
  )

  -- A read-only binding never writes to a customer: a message that an adapter has taken was for the
  -- operator, for the address of the drafts, or for nobody.
  pub send_outbound_with_binding-read_only :
      binding.inbound_mode ≡ inbound_read_only
      → ((send_outbound_with_binding env binding msg w).1.outbox ≡ w.outbox)
        ⊎ IsOwn binding msg.recipient_identifier
  send_outbound_with_binding-read_only h =
      elim (Bool-cases (guard_passes binding msg.recipient_identifier)) [
        | inl g ↦ inr (guard_passes-IsOwn binding msg.recipient_identifier h g)
        | inr g ↦ inl (send_outbound_with_binding-blocked g).1.0
      ]

-- A binding whose mode is empty counts as read-only wherever the mode is parsed, but the guard lets
-- every recipient through.
pub guard_passes-unset :
    (binding : ChannelBinding) (recipient : String)
    → binding.inbound_mode ≡ ""
    → (parse_inbound_mode binding.inbound_mode ≡ inbound_read_only)
      × (guard_passes binding recipient ≡ true)
unfolding guard_passes parse_inbound_mode
guard_passes-unset binding recipient h = rw h (refl, refl)
