-- ===== src/App/Mcp/Gate.antt =====
-- CallMCPWriteFinal of internal/app/app.go: its answers by the inputs.
use victoria.Prelude.{
  String, ◌≡◌, ◌∙◌, ap, refl, true, false, ◌↔◌, Option-cases, none, some, ◌==◌, eq_iff, not,
  Bool-cases, inl, inr,
}
use victoria.Exec.{Result, ok, pure, ◌>>=◌, sandbox_mode, security_violation, approval_required}
use victoria.GoMap.{values, first}
use victoria.Domain.{Mode, McpRequest, AuditEvent, parse_mode}
use victoria.Memory.Audit.{has_approval_audit, is_approval}
use victoria.App.{Env, World}
use victoria.App.Core.Laws.{audit-then}
use victoria.App.Core.{in_store}
use victoria.App.Mcp.{Answer, granted, refused, call_mcp_write_final}

-- an approval is on record for the request
abbrev pub IsApproved : World → String → McpRequest → Type 0
IsApproved w tenant_id req =
    (e : AuditEvent) × (first (is_approval tenant_id req.case_run_id req.decision_point_id)
        (values (w.store).audit_events)
      ≡ some e)

parse_mode-sandbox : (m : String) → (parse_mode m == "sandbox") ≡ not (m == "live")
unfolding parse_mode
parse_mode-sandbox m = elim (Bool-cases (m == "live")) [ inl e ↦ rw e | inr e ↦ rw e ]

module _ (env : Env) (tenant_id : String) (mode : Mode) (req : McpRequest) (w : World) where
  granted_of :
      (parse_mode mode == "sandbox") ≡ false
      → (parse_mode req.mode == "sandbox") ≡ false
      → (req.tenant_header == tenant_id) ≡ true
      → IsApproved w tenant_id req
      → (call_mcp_write_final env tenant_id mode req w).0 ≡ ok granted
  unfolding call_mcp_write_final ◌>>=◌ in_store has_approval_audit
  granted_of h1 h2 h3 (e, h4) = rw h1 (
      rw h2 (
        rw h3 (
          rw (h4, has_approval_audit)
            (ap (λ (r : Result Answer × World). r.0)
              (audit-then env _ _ _ _ _ _ _ _ _ w (pure granted))))))

  refused_server :
      (parse_mode mode == "sandbox") ≡ true
      → (call_mcp_write_final env tenant_id mode req w).0
        ≡ ok (refused "SANDBOX_MODE" "sandbox mode" sandbox_mode)
  unfolding call_mcp_write_final ◌>>=◌
  refused_server h = rw h refl

  refused_request :
      (parse_mode mode == "sandbox") ≡ false
      → (parse_mode req.mode == "sandbox") ≡ true
      → (call_mcp_write_final env tenant_id mode req w).0
        ≡ ok (refused "SANDBOX_MODE" "sandbox mode" sandbox_mode)
  unfolding call_mcp_write_final ◌>>=◌
  refused_request h k = rw h (rw k refl)

  refused_tenant :
      (parse_mode mode == "sandbox") ≡ false
      → (parse_mode req.mode == "sandbox") ≡ false
      → (req.tenant_header == tenant_id) ≡ false
      → (call_mcp_write_final env tenant_id mode req w).0
        ≡ ok (refused "TENANT_MISMATCH" "security violation" security_violation)
  unfolding call_mcp_write_final ◌>>=◌
  refused_tenant h1 h2 h3 = rw h1 (rw h2 (rw h3 refl))

  refused_approval :
      (parse_mode mode == "sandbox") ≡ false
      → (parse_mode req.mode == "sandbox") ≡ false
      → (req.tenant_header == tenant_id) ≡ true
      → first
          (is_approval tenant_id req.case_run_id req.decision_point_id)
          (values (w.store).audit_events)
        ≡ none
      → (call_mcp_write_final env tenant_id mode req w).0
        ≡ ok (refused "APPROVAL_REQUIRED" "approval required" approval_required)
  unfolding call_mcp_write_final ◌>>=◌ in_store has_approval_audit
  refused_approval h1 h2 h3 h4 = rw h1 (rw h2 (rw h3 (rw (h4, has_approval_audit) refl)))

  -- The write is granted exactly when the server and the request are both live, the caller's tenant
  -- is the one that the server is bound to, and an approval of the decision point is on record.
  pub call_mcp_write_final-granted :
      ((call_mcp_write_final env tenant_id mode req w).0 ≡ ok granted) ↔ (
        (mode ≡ "live")
        × (req.mode ≡ "live")
        × (req.tenant_header ≡ tenant_id)
        × IsApproved w tenant_id req)
  call_mcp_write_final-granted = (only_if, if_)
    where
      live_of : (m : String) → (parse_mode m == "sandbox") ≡ false → m ≡ "live"
      live_of m h = elim (Bool-cases (m == "live")) [
        | inl e ↦ (eq_iff m "live").0 e
        | inr e ↦ cc (h, parse_mode-sandbox m, ap not e)
      ]

      live_to : (m : String) → m ≡ "live" → (parse_mode m == "sandbox") ≡ false
      live_to m h = parse_mode-sandbox m ∙ ap not ((eq_iff m "live").1 h)

      if_ :
          ((mode ≡ "live")
            × (req.mode ≡ "live")
            × (req.tenant_header ≡ tenant_id)
            × IsApproved w tenant_id req)
          → (call_mcp_write_final env tenant_id mode req w).0 ≡ ok granted
      if_ (h1, h2, h3, h4) = granted_of (live_to _ h1) (live_to _ h2) ((eq_iff _ _).1 h3) h4

      only_if :
          (call_mcp_write_final env tenant_id mode req w).0 ≡ ok granted
          → ((mode ≡ "live")
              × (req.mode ≡ "live")
              × (req.tenant_header ≡ tenant_id)
              × IsApproved w tenant_id req)
      only_if g = elim (Bool-cases (parse_mode mode == "sandbox")) [
        | inl h1 ↦ cc (g, refused_server h1)
        | inr h1 ↦ elim (Bool-cases (parse_mode req.mode == "sandbox")) [
          | inl h2 ↦ cc (g, refused_request h1 h2)
          | inr h2 ↦ elim (Bool-cases (req.tenant_header == tenant_id)) [
            | inr h3 ↦ cc (g, refused_tenant h1 h2 h3)
            | inl h3 ↦
                elim (Option-cases (
                  first (is_approval tenant_id req.case_run_id req.decision_point_id)
                    (values (w.store).audit_events))) [
                      | inl h4 ↦ cc (g, refused_approval h1 h2 h3 h4)
                      | inr h4 ↦ (live_of mode h1, live_of req.mode h2, (eq_iff _ _).0 h3, h4)
                    ]
          ]
        ]
      ]
