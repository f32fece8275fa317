-- ===== src/Http/Routes/Guarded.antt =====
-- What stands in front of the handlers, as a test of the whole Authorization header.
use victoria.Prelude.{
  ◌≡◌, arith, String, Option, none, ◌==◌, eq_iff, if◌then◌else◌, join, Option-cases, inl, inr,
}
use victoria.Exec.{Exec, Result, pure}
use victoria.Text.{after_prefix}
use victoria.Text.Laws.{after_prefix-join, after_prefix-eq}
use victoria.App.{Env, World}
use victoria.App.Gateway.Inbound.{InboundReply}
use victoria.Http.{Server, Response, AdminCall, Decoded, admin, gateway_inbound, failure, problem}
use victoria.Http.Errors.{respond}
use victoria.Http.Auth.{token_auth, unauthorized, admin_auth, gateway_inbound_auth}
use victoria.Http.Admin.{serve_admin, serve_gateway_inbound}
use victoria.Http.Routes.{serve}

abbrev pub guarded : String → String → Response → String → Exec World Response → Exec World Response
guarded token prefix disabled authorization next =
    if token == ""
    then pure disabled
    else if authorization == join prefix token
    then next
    else pure (respond 401 (problem "unauthorized"))

join_inj : (p s t : String) → join p s ≡ join p t → s ≡ t
join_inj p s t e = cc (after_prefix-join p s, after_prefix-join p t)

token_auth-eq-guarded :
    (token prefix : String) (disabled : Response) (authorization : String)
    (next : Exec World Response)
    → token_auth token prefix disabled authorization next
      ≡ guarded token prefix disabled authorization next
unfolding token_auth unauthorized
token_auth-eq-guarded token prefix disabled a next = elim (Option-cases (after_prefix prefix a)) [
  | inl h ↦ ground (arith, h, eq_iff a (join prefix token), after_prefix-join prefix token)
  | inr (got, h) ↦ ground (
    arith,
    h,
    eq_iff a (join prefix token),
    eq_iff got token,
    after_prefix-eq prefix a got h,
    join_inj prefix got token,
  )
]

module _ (env : Env) (random_hex : Result String) (encode : String → Option String)
    (server : Server) where
  -- A request for an admin route or for the gateway's route reaches its handler exactly if a token is
  -- configured and the Authorization header is the route's prefix followed by that token; it is
  -- answered with 503 where none is configured and with 401 else, and nothing changes then.
  pub serve-guarded :
      (authorization : String) (call : AdminCall) (reply : Decoded InboundReply)
      → (serve env random_hex encode server authorization (admin call)
          ≡ guarded server.admin_token "Bearer admin:"
              (respond 503 (failure "admin_disabled" "VICTORIA_ADMIN_TOKEN is not configured" none))
              authorization
              (serve_admin env random_hex call))
        × (serve env random_hex encode server authorization (gateway_inbound reply)
            ≡ guarded server.gateway_inbound_token "Bearer gw:"
                (respond 503 (
                  failure "gateway_inbound_disabled"
                    "VICTORIA_GATEWAY_INBOUND_TOKEN is not configured" none))
                authorization
                (serve_gateway_inbound env reply))
  unfolding serve admin_auth gateway_inbound_auth
  serve-guarded a call reply = (
    token_auth-eq-guarded server.admin_token "Bearer admin:" _ a (serve_admin env random_hex call),
    token_auth-eq-guarded server.gateway_inbound_token "Bearer gw:" _ a
        (serve_gateway_inbound env reply),
  )
