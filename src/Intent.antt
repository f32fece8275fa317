-- ===== src/Intent.antt =====
-- classifyIntent, stripPrefix, cleanupNote and extractPacketReference of internal/app/app.go: an
-- operator's words as approval, rejection, command or correction.
pub mod References
use Prim.Native.String.{count}
use victoria.Prelude.{
  String, Bool, true, Option, none, some, List, [], ◌∷◌, ◌==◌, ◌||◌, if◌then◌else◌,
}
use victoria.Text.{
  trim_space, trim_left, one_of, to_lower, after_prefix, has_prefix, after_first, before_char,
  drop_chars,
}

abbrev pub IntentResult : Type 0
IntentResult = record { kind : String; note : String }

abbrev pub yes_tokens : List String
yes_tokens =
    "yes" ∷ "yep" ∷ "yup" ∷ "y" ∷ "ok" ∷ "okay" ∷ "sure" ∷ "approve" ∷ "approved" ∷ "approve."
    ∷ "lgtm" ∷ "looks good" ∷ "go ahead" ∷ "go" ∷ "send" ∷ "send it" ∷ "confirm" ∷ "confirmed"
    ∷ "do it" ∷ "1" ∷ "👍" ∷ "👌" ∷ "✅" ∷ []

abbrev pub no_tokens : List String
no_tokens =
    "no" ∷ "nope" ∷ "nah" ∷ "n" ∷ "wrong" ∷ "incorrect" ∷ "negative" ∷ "stop" ∷ "hold" ∷ "don't"
    ∷ "do not" ∷ "2" ∷ "👎" ∷ "❌" ∷ []

-- whether the token ends where the text goes on
ends_word : String → Bool
ends_word String.[] = true
ends_word (String.◌∷◌ c s) = one_of " ,.!-:;?" c

-- the body of the loop of stripPrefix: what is left of the original text behind the token
strip_token : String → String → String → Option String
unfolding ends_word
strip_token lower original token = elim (after_prefix token lower) [
  | none ↦ none
  | some rest ↦ if ends_word rest then some (drop_chars (count token) original) else none
]

strip_prefix : String → String → List String → Option String
strip_prefix lower original [] = none
strip_prefix lower original (token ∷ tokens) =
    let later = strip_prefix lower original tokens in
    elim (strip_token lower original token) [ some rest ↦ some rest | none ↦ later ]

cleanup_note : String → String
cleanup_note s = trim_space (trim_left (one_of ",.:;-! ") (trim_space s))

abbrev intent : String → String → IntentResult
intent kind note = record { kind = kind; note = note }

-- the answer to "no", by the note behind it
abbrev rejection : String → IntentResult
rejection note =
    if note == "" then intent "reject_need_followup" "" else intent "reject_with_reason" note

unfoldable pub classify_intent : String → IntentResult
unfolding strip_prefix cleanup_note strip_token
classify_intent words =
    let clean = trim_space words in
    let lower = to_lower clean in
    if clean == ""
    then intent "" ""
    else if lower == "promote" || has_prefix lower "promote "
    then intent "promote" ""
    else elim (strip_prefix lower clean yes_tokens) [
      | some rest ↦ intent "approve" (cleanup_note rest)
      | none ↦ elim (strip_prefix lower clean no_tokens) [
        | some rest ↦ rejection (cleanup_note rest)
        | none ↦ intent "correction" clean
      ]
    ]

-- "" where there is no complete tag
unfoldable pub extract_packet_reference : String → String
extract_packet_reference words = elim (after_first "[packet:" words) [
  | none ↦ ""
  | some rest ↦ elim (before_char "]" rest) [ none ↦ "" | some id ↦ id ]
]
