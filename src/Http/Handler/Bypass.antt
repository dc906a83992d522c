-- ===== src/Http/Handler/Bypass.antt =====
-- Targets that no endpoint protects, although the files of one lie behind them.
use gate_control.Base.{true, ◌∷◌, ◌≡◌, ap, ◌∙◌}
use gate_control.Base.Text.{Str, starts_with}
use gate_control.Base.Outcome.{ok, ◌>>=◌}
use gate_control.Json.{JsonLib}
use gate_control.Auth.Endpoint.{get_endpoint_permissions}
use gate_control.Auth.Endpoint.Segments.{get_endpoint_permissions-slashes}
use gate_control.Http.Target.{is_target_single_level, target_starts_with_segment}
use gate_control.Http.Response.{Request}
use gate_control.Http.Handler.{
  Opened, Server, is_acceptable, serve_file, file_path, respond, handle_request,
}
use gate_control.Http.Handler.Errors.{handle_request-open}

module _ (J : JsonLib) (H : Str → Str) (open_file : Str → Opened) (s : Server J) where
  respond-slashes :
      (req : Request) (nonce rest : Str)
      → req.target ≡ b'/' ∷ b'/' ∷ rest
      → respond J H open_file s req nonce
        ≡ ok (serve_file J H open_file s (file_path J H open_file s req.target) req)
  unfolding respond is_target_single_level target_starts_with_segment starts_with
  respond-slashes req nonce rest e = rw (e, respond)

  -- A target with two slashes at the front is served as a file below the document root to anybody:
  -- the credentials of the request are not looked at, whatever endpoint the file belongs to.
  pub handle_request-slashes :
      (req : Request) (nonce fresh rest : Str)
      → req.target ≡ b'/' ∷ b'/' ∷ rest
      → is_acceptable req ≡ true
      → handle_request J H open_file s req nonce fresh
        ≡ ok (serve_file J H open_file s (file_path J H open_file s req.target) req, nonce)
  handle_request-slashes req nonce fresh rest e acceptable =
      handle_request-open J H open_file s req nonce fresh acceptable
        (ap get_endpoint_permissions e ∙ get_endpoint_permissions-slashes rest)
      ∙ ap (λ o. o >>= λ res. ok (res, nonce)) (respond-slashes req nonce rest e)
