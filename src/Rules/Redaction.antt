-- ===== src/Rules/Redaction.antt =====
-- redactAggregateConditions and looksLikeFreeText of internal/app/rules.go: what leaves a tenant when
-- the candidates of a vertical are put together.
pub mod Safe
use victoria.Prelude.{String, Bool, true, false, List, [], ◌∷◌, ◌==◌, ◌||◌, if◌then◌else◌}
use victoria.Text.{to_lower, contains_text}
use victoria.Domain.{text, sprint, Condition}

-- the set of the values that are known to be no free text
abbrev pub allowed : String → Bool
allowed value =
    value == "true"
    || (value == "false"
        || (value == "new"
            || (value == "repeat"
                || (value == "commercial"
                    || (value == "residential" || (value == "AU" || value == "SG"))))))

pub looks_like_free_text : String → Bool
looks_like_free_text value =
    if value == "" then false else if allowed value then false else contains_text value " "

abbrev pub Redacted : Type 0
Redacted = record { condition : Condition; quarantine : Bool }

-- the switch in the loop
pub redact : Condition → Redacted
redact c =
    if contains_text (sprint c.value) "@"
    then record { condition = record c { value = text "<email>" }; quarantine = false }
    else if contains_text (to_lower c.field) "client_name"
        || contains_text (to_lower c.field) "customer_name"
    then record {
      condition = record c { value = text "<quarantined:freetext>" };
      quarantine = true;
    }
    else if looks_like_free_text (sprint c.value)
    then record {
      condition = record c { value = text "<quarantined:freetext>" };
      quarantine = true;
    }
    else record { condition = c; quarantine = false }

abbrev pub Aggregated : Type 0
Aggregated = record { conditions : List Condition; quarantine : Bool }

pub redact_aggregate_conditions : List Condition → Aggregated
unfolding redact
redact_aggregate_conditions [] = record { conditions = []; quarantine = false }
redact_aggregate_conditions (c ∷ cs) =
    let rest = redact_aggregate_conditions cs in
    record {
      conditions = (redact c).condition ∷ rest.conditions;
      quarantine = (redact c).quarantine || rest.quarantine;
    }
