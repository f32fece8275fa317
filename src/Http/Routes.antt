-- ===== src/Http/Routes.antt =====
-- Handler of internal/httpapi/server.go: each route with the guard in front of it.
pub mod Guarded
use victoria.Prelude.{String, Option}
use victoria.Exec.{Result, Exec, pure}
use victoria.App.{Env, World}
use victoria.App.Mcp.{mcp_list_tools}
use victoria.Http.{
  Server, Response, Call, health, mcp_tools, admin, tenant, gateway_inbound, fine, tools,
}
use victoria.Http.Errors.{respond}
use victoria.Http.Auth.{gateway_inbound_auth, admin_auth, tenant_auth}
use victoria.Http.Admin.{serve_admin, serve_gateway_inbound}
use victoria.Http.Tenants.{serve_tenant}

module _ (env : Env) (random_hex : Result String) (encode : String → Option String)
    (server : Server) where
  -- a request with its Authorization header
  pub serve : String → Call → Exec World Response
  unfolding serve_admin serve_tenant
  serve authorization health = pure (respond 200 fine)
  serve authorization (mcp_tools mode) = pure (respond 200 (tools (mcp_list_tools mode)))
  serve authorization (admin call) =
      admin_auth server authorization (serve_admin env random_hex call)
  serve authorization (tenant call) =
      tenant_auth authorization (λ tenant_id. serve_tenant env server encode tenant_id call)
  serve authorization (gateway_inbound reply) =
      gateway_inbound_auth server authorization (serve_gateway_inbound env reply)
