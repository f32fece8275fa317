-- ===== src/Domain/Values.antt =====
-- The values of `map[string]any`, and the conditions and facts that are made of them.
use victoria.Prelude.{String, Bool, false, Option, none, some, ◌==◌, if◌then◌else◌}
use victoria.GoMap.{GoMap, get, put}
use victoria.Domain.Names.{Float64}

-- A dynamic value as far as the program looks at it: a string, a bool, or a value of another type
-- with the text that fmt.Sprint prints for it.
pub data Value : Type 0 where
  text : String → Value
  flag : Bool → Value
  other : String → Value

-- fmt.Sprint
unfoldable pub sprint : Value → String
sprint (text s) = s
sprint (flag b) = if b then "true" else "false"
sprint (other s) = s

-- `map[string]any`; `none` is the nil map, which can be read and copied but not written
abbrev pub Payload : Type 0
Payload = Option (GoMap Value)

-- a read, which a nil map answers with "not there"
unfoldable pub read : Payload → String → Option Value
read none k = none
read (some m) k = get k m

-- a write; `none` is the panic "assignment to entry in nil map"
unfoldable pub write : String → Value → Payload → Option Payload
write k v none = none
write k v (some m) = some (some (put k v m))

-- boolValue of internal/app/helpers.go
unfoldable pub bool_value : Payload → String → Bool
bool_value payload key = elim (read payload key) [
  | none ↦ false
  | some (text s) ↦ s == "true"
  | some (flag b) ↦ b
  | some (other s) ↦ s == "true"
]

-- stringValue of internal/app/helpers.go
unfoldable pub string_value : Payload → String → String → String
unfolding sprint
string_value payload key fallback = elim (read payload key) [
  | none ↦ fallback
  | some v ↦ if sprint v == "" then fallback else sprint v
]

pub record Condition : Type 0 where
  pub field : String
  pub operator : String
  pub value : Value

pub record Fact : Type 0 where
  pub label : String
  pub value : String
  pub confidence : Float64
