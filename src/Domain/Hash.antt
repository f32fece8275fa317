-- ===== src/Domain/Hash.antt =====
-- internal/domain/hash.go over the digest and the JSON encoder of the standard library.
use victoria.Prelude.{String, Bool, List, ◌==◌, if◌then◌else◌}
use victoria.Exec.{Result}
use victoria.Sort.{text_less, sort_by}
use victoria.Text.{join_with}
use victoria.Domain.Values.{Value, Payload, Condition}

pub record Hashing : Type 0 where
  -- SHA-256 of the text's bytes, in hexadecimal
  pub sha256_hex : String → String
  -- what json.Marshal answers; of a condition's value the error is dropped
  pub marshal_value : Value → String
  pub marshal_payload : Payload → Result String
  pub marshal_conditions : List Condition → Result String

module _ (hashing : Hashing) where
  open hashing use {sha256_hex, marshal_value}

  unfoldable pub sha256_key : List String → String
  sha256_key parts = sha256_hex (join_with "\u{1f}" parts)

  condition_less : Condition → Condition → Bool
  condition_less a b =
      if a.field == b.field
      then if a.operator == b.operator
        then text_less (marshal_value a.value) (marshal_value b.value)
        else text_less a.operator b.operator
      else text_less a.field b.field

  unfoldable pub canonicalize_conditions : List Condition → List Condition
  unfolding condition_less
  canonicalize_conditions conditions = sort_by condition_less conditions
