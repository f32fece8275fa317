-- ===== src/Http/Auth.antt =====
-- gatewayInboundAuth, adminAuth and tenantAuth of internal/httpapi/server.go. The comparison in
-- constant time is equality.
use victoria.Prelude.{String, none, some, ◌==◌, not, if◌then◌else◌}
use victoria.Exec.{Exec, pure}
use victoria.Text.{after_prefix, trim_space}
use victoria.App.{World}
use victoria.Http.{Server, Response, failure, problem}
use victoria.Http.Errors.{respond}

unfoldable pub unauthorized : Exec World Response
unauthorized = pure (respond 401 (problem "unauthorized"))

-- the two guards that compare a token, by its prefix and the answer where none is configured
unfoldable pub token_auth :
    String → String → Response → String → Exec World Response → Exec World Response
unfolding unauthorized
token_auth token prefix disabled authorization next =
    if token == "" then pure disabled else elim (after_prefix prefix authorization) [
      | none ↦ unauthorized
      | some got ↦ if not (got == token) then unauthorized else next
    ]

unfoldable pub gateway_inbound_auth : Server → String → Exec World Response → Exec World Response
unfolding token_auth
gateway_inbound_auth server = token_auth server.gateway_inbound_token "Bearer gw:" (
    respond 503
      (failure "gateway_inbound_disabled" "VICTORIA_GATEWAY_INBOUND_TOKEN is not configured" none))

unfoldable pub admin_auth : Server → String → Exec World Response → Exec World Response
unfolding token_auth
admin_auth server =
    token_auth server.admin_token "Bearer admin:"
      (respond 503 (failure "admin_disabled" "VICTORIA_ADMIN_TOKEN is not configured" none))

-- the tenant that the handler finds in its context is the one of the token
unfoldable pub tenant_auth : String → (String → Exec World Response) → Exec World Response
unfolding unauthorized
tenant_auth authorization next = elim (after_prefix "Bearer tid:" authorization) [
  | none ↦ unauthorized
  | some token ↦ if trim_space token == "" then unauthorized else next (trim_space token)
]
