-- ===== src/Domain/Names.antt =====
-- The string types of internal/domain/types.go. A Go `type Mode string` takes every string, so each
-- is a text here, and the parsers and validity tests are those of the source.
use victoria.Prelude.{String, Bool, ◌||◌, ◌==◌, if◌then◌else◌, ℕ}

-- time.Time in nanoseconds; the zero time is 0. Durations are in nanoseconds too.
abbrev pub Time : Type 0
Time = ℕ

abbrev pub hour : ℕ
hour = 3600000000000

-- A float64, as its bit pattern. The arithmetic on it is a parameter, in `Env`.
abbrev pub Float64 : Type 0
Float64 = ℕ

abbrev pub Mode : Type 0
Mode = String

abbrev pub mode_sandbox : Mode
mode_sandbox = "sandbox"

abbrev pub mode_live : Mode
mode_live = "live"

unfoldable pub parse_mode : String → Mode
parse_mode value = if value == "live" then mode_live else mode_sandbox

unfoldable pub valid_for_workflow_input : Mode → Bool
valid_for_workflow_input m = m == mode_sandbox || m == mode_live

abbrev pub Scope : Type 0
Scope = String

abbrev pub scope_case : Scope
scope_case = "case"

abbrev pub scope_tenant : Scope
scope_tenant = "tenant"

abbrev pub scope_vertical : Scope
scope_vertical = "vertical"

abbrev pub scope_default : Scope
scope_default = "default"

abbrev pub ActionButton : Type 0
ActionButton = String

abbrev pub action_approve : ActionButton
action_approve = "approve"

abbrev pub action_wrong_facts : ActionButton
action_wrong_facts = "wrong_facts"

abbrev pub action_wrong_action : ActionButton
action_wrong_action = "wrong_action"

abbrev pub action_missing_condition : ActionButton
action_missing_condition = "missing_condition"

abbrev pub action_use_different_template : ActionButton
action_use_different_template = "use_different_template"

abbrev pub action_add_note : ActionButton
action_add_note = "add_note"

-- ActionButton.Valid
unfoldable pub valid_action : ActionButton → Bool
valid_action a =
    a == action_approve
    || (a == action_wrong_facts
        || (a == action_wrong_action
            || (a == action_missing_condition
                || (a == action_use_different_template || a == action_add_note))))

-- ActionButton.SignalName
unfoldable pub signal_name : ActionButton → String
signal_name a = if a == action_approve then "CaseApproved" else "CaseRejected"

abbrev pub InboundMode : Type 0
InboundMode = String

abbrev pub inbound_read_only : InboundMode
inbound_read_only = "read_only"

abbrev pub inbound_full_control : InboundMode
inbound_full_control = "full_control"

unfoldable pub parse_inbound_mode : String → InboundMode
parse_inbound_mode value =
    if value == inbound_full_control then inbound_full_control else inbound_read_only

-- InboundMode.Valid
unfoldable pub valid_inbound_mode : InboundMode → Bool
valid_inbound_mode m = m == inbound_read_only || m == inbound_full_control

abbrev pub SessionStatus : Type 0
SessionStatus = String

abbrev pub session_unknown : SessionStatus
session_unknown = ""

abbrev pub session_qr_needed : SessionStatus
session_qr_needed = "qr_needed"

abbrev pub session_active : SessionStatus
session_active = "active"

abbrev pub session_disconnected : SessionStatus
session_disconnected = "disconnected"

abbrev pub session_connecting : SessionStatus
session_connecting = "connecting"

abbrev pub session_suspended : SessionStatus
session_suspended = "suspended"
