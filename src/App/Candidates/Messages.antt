-- ===== src/App/Candidates/Messages.antt =====
-- formatClarificationRequest, formatContradictionAlert and formatLearningStatus of internal/app/app.go.
use Prim.Native.String.{len, slice}
use victoria.Prelude.{ℕ, ◌-◌, String, ◌==◌, if◌then◌else◌, ltb, leb, join}
use victoria.Text.{trim_space, decimal}
use victoria.Domain.{RuleCandidate, default_min_evidence_count}

-- cleaned[:80] takes whole characters here
unfoldable pub format_clarification_request : String → String
format_clarification_request free_text =
    let cleaned = trim_space free_text in
    join "📝 I didn't quite catch that (\"" (
      join (if ltb 80 (len cleaned) then join (slice cleaned 0 80) "…" else cleaned)
        "\"). Could you rephrase?\n\nExamples:\n• \"hold and ask for photos\"\n• \"send it anyway\"\n• \"no GST — overseas supplier\"\n• \"use corporate template\"")

unfoldable pub format_contradiction_alert : RuleCandidate → String → String
format_contradiction_alert prior new_action =
    join "⚠\u{fe0f} *Conflict detected.*\n\nFor this same case pattern " (
      join
        (if prior.status == "under_review"
          then "I'd flagged for promotion"
          else "we'd been agreeing on")
        (join " *" (
          join prior.recommended_action (
            join "* (" (
              join (decimal prior.evidence_count) (
                join " matching corrections so far). Your latest reply tells me to do *" (
                  join new_action
                    "* instead.\n\nI won't promote either rule until this is resolved. Reply with which one is right, or escalate to a senior reviewer.")))))))

-- `if remaining <= 0 { remaining = 1 }`
abbrev remaining : ℕ → ℕ
remaining evidence_count =
    if leb (default_min_evidence_count - evidence_count) 0
    then 1
    else default_min_evidence_count - evidence_count

unfoldable pub format_learning_status : RuleCandidate → String → String
format_learning_status c kind =
    if c.status == "under_review"
    then join "🔔 That's *" (
        join (decimal c.evidence_count) (
          join
            " corrections* matching this same case pattern.\n\nI'm flagging a new rule for your review:\n  → "
            (join c.recommended_action (
              join "\n\nReply *promote* (or run /admin/candidates/" (
                join c.tenant_id (
                  join "/" (join c.id "/promote) when ready, and I'll apply it from here on.")))))))
    else if kind == "first"
    then join "✅ Got it — recorded your correction. (" (
        join (decimal c.evidence_count) (
          join " of "
            (join (decimal default_min_evidence_count) " matches before I propose a rule.)")))
    else join "✅ Got it. (" (
        join (decimal c.evidence_count) (
          join " of " (
            join (decimal default_min_evidence_count)
              (join " matches — " (join (decimal (remaining c.evidence_count)) " more to go.)")))))
