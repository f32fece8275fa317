-- ===== src/App/Gateway/Followups.antt =====
-- The follow-up turn: after a correction button or a bare "no", the operator's next message is the
-- reason.
pub mod Turns
use victoria.Prelude.{ℕ, ◌-◌, String, Bool, true, false, none, some, if◌then◌else◌, ltb}
use victoria.Exec.{ok, Exec}
use victoria.GoMap.{get, put, remove}
use victoria.Domain.{ActionButton, action_wrong_action, valid_action, hour}
use victoria.App.{World}

-- followupTTL
abbrev pub followup_ttl : ℕ
followup_ttl = hour

abbrev pub or_wrong_action : ActionButton → ActionButton
or_wrong_action action = if valid_action action then action else action_wrong_action

pub set_pending_followup_action : String → String → ActionButton → Exec World (Unit {0})
set_pending_followup_action tenant_id packet_id action w = (
  ok tt,
  record w {
    pending_followups =
        put tenant_id
          (record { packet_id = packet_id; action = or_wrong_action action; started_at = w.now })
          w.pending_followups;
  },
)

unfoldable pub set_pending_followup : String → String → Exec World (Unit {0})
unfolding set_pending_followup_action
set_pending_followup tenant_id packet_id =
    set_pending_followup_action tenant_id packet_id action_wrong_action

abbrev pub Consumed : Type 0
Consumed = record { packet_id : String; action : ActionButton; found : Bool }

abbrev pub nothing_pending : Consumed
nothing_pending = record { packet_id = ""; action = ""; found = false }

pub consume_pending_followup : String → Exec World Consumed
consume_pending_followup tenant_id w = elim (get tenant_id w.pending_followups) [
  | none ↦ (ok nothing_pending, w)
  | some state ↦
      let cleared = record w { pending_followups = remove tenant_id w.pending_followups } in
      if ltb followup_ttl (w.now - state.started_at) then (ok nothing_pending, cleared) else (
        ok (record {
          packet_id = state.packet_id;
          action = or_wrong_action state.action;
          found = true;
        }),
        cleared,
      )
]
