-- ===== src/Http/Errors.antt =====
-- writeError, writeErrorWithPayload and decodeJSON of internal/httpapi/server.go.
use victoria.Prelude.{ℕ, String, Option, none}
use victoria.Exec.{
  Error, ok, err, not_found, tenant_mismatch, invalid_input, sandbox_contamination,
  approval_required, sandbox_mode, security_violation, expired, consent_required, panic, Exec, pure,
  attempt, ◌>>=◌,
}
use victoria.Domain.{McpResult}
use victoria.App.{Env, World}
use victoria.Http.{Body, Response, Decoded, bad_json, json, failure, empty}

abbrev pub respond : ℕ → Body → Response
respond status body = record { status = status; body = body }

abbrev pub Code : Type 0
Code = record { status : ℕ; code : String }

abbrev code_of : ℕ → String → Code
code_of status code = record { status = status; code = code }

-- the switch of writeErrorWithPayload
error_code : Error → Code
error_code invalid_input = code_of 400 "invalid_input"
error_code sandbox_contamination = code_of 400 "sandbox_contamination"
error_code not_found = code_of 404 "not_found"
error_code tenant_mismatch = code_of 403 "security_violation"
error_code security_violation = code_of 403 "security_violation"
error_code sandbox_mode = code_of 403 "sandbox_mode"
error_code approval_required = code_of 403 "approval_required"
error_code expired = code_of 410 "expired"
error_code consent_required = code_of 403 "consent_required"
error_code _ = code_of 500 "internal_error"

module _ (env : Env) where
  -- a panic is answered by the Recoverer, which writes no body
  pub write_error_with_payload : Option McpResult → Error → Response
  unfolding error_code
  write_error_with_payload payload panic = respond 500 empty
  write_error_with_payload payload e =
      respond (error_code e).status (failure (error_code e).code (env.error_text e) payload)

  pub write_error : Error → Response
  unfolding write_error_with_payload
  write_error e = write_error_with_payload none e

  -- `if err != nil { writeError(w, err); return }` behind a call of the engine
  unfoldable pub answer : {A : Type 0} → Exec World A → (A → Response) → Exec World Response
  unfolding write_error
  answer m f = do r ← attempt m; pure (elim r [ ok a ↦ f a | err e ↦ write_error e ])

  -- `if !decodeJSON(w, r, &req) { return }`
  unfoldable pub decode_json :
      {A : Type 0} → Decoded A → (A → Exec World Response) → Exec World Response
  decode_json (bad_json message) f = pure (respond 400 (failure "invalid_json" message none))
  decode_json (json a) f = f a
