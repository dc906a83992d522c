-- ===== src/Http/Handler.antt =====
-- src/http_session.cpp: `handle_request`. The file system and the hash are parameters.
pub mod Access
pub mod Routes
pub mod Errors
pub mod Bypass
pub mod Refusals
pub mod Served
use gate_control.Base.{
  ℕ, Bool, true, false, not, ◌&&◌, ◌||◌, List, [], ◌∷◌, ◌++◌, Option, none, some, length, drop,
  ◌==◌, if◌then◌else◌, any,
}
use gate_control.Base.Text.{Str, codes, str_eq, has_sub}
use gate_control.Base.Outcome.{Outcome, ok, raised, undefined, ◌>>=◌, or_raise}
use gate_control.Json.{JsonLib}
use gate_control.AuthTable.Types.{AuthData, AuthTable, AuthorizationType, blocked, lt_permissions}
use gate_control.Config.{GcConfig, MapEntry, get_maps_for_client, get_map_by_id}
use gate_control.Auth.Endpoint.{get_endpoint_permissions}
use gate_control.Auth.Digest.{Verb, get, head, get_auth}
use gate_control.Http.Target.{
  indexable_endpoints, is_target_single_level, target_starts_with_segment, path_cat, mime_type,
}
use gate_control.Http.Response.{
  Request, Response, Body, empty, string, file, bad_request_response, not_found_response,
  server_error_response, forbidden_response, unauthorized_response, content_response,
}

-- What opening a file gives: its size, or one of the errors that the handler tells apart.
pub data Opened : Type 0 where
  opened : ℕ → Opened
  no_such_file : Opened
  failed : Str → Opened

abbrev pub is_get : Verb → Bool
is_get get = true
is_get _ = false

abbrev pub is_head : Verb → Bool
is_head head = true
is_head _ = false

abbrev pub is_blocked : AuthorizationType → Bool
is_blocked blocked = true
is_blocked _ = false

abbrev pub slash_first : Str → Bool
slash_first [] = false
slash_first (c ∷ s) = c == b'/'

abbrev pub slash_last : Str → Bool
slash_last [] = false
slash_last (c ∷ []) = c == b'/'
slash_last (c ∷ d ∷ s) = slash_last (d ∷ s)

-- The target is empty, is not absolute, or holds "..".
abbrev pub illegal_target : Str → Bool
illegal_target target = not (slash_first target) || has_sub target (codes "..")

-- Whether the method and the target are such as the handler takes.
abbrev pub is_acceptable : Request → Bool
is_acceptable req = (is_get req.method || is_head req.method) && not (illegal_target req.target)

-- What the sessions of a server share.
pub record Server (J : JsonLib) : Type 0 where
  pub doc_root : Str
  -- Whether the server is built with MSVC.
  pub is_msvc : Bool
  pub auth_table : AuthTable
  pub opaque : Str
  pub config : GcConfig J

module _ (J : JsonLib) (H : Str → Str) (open_file : Str → Opened) (s : Server J) where
  -- The checks of an endpoint with permissions: `some` is the response that ends the request, with
  -- the nonce after it.
  unfoldable pub check_user :
      AuthorizationType → Request → Str → Str → Option AuthData → Option (Response × Str)
  check_user permissions req nonce fresh none =
      some (unauthorized_response fresh s.opaque req false)
  check_user permissions req nonce fresh (some user) =
      if lt_permissions user.permissions permissions
      then some (forbidden_response req, nonce)
      else none

  unfoldable pub check_credentials :
      AuthorizationType → Request → Str → Str → Option Str → Outcome (Option (Response × Str))
  check_credentials permissions req nonce fresh none =
      ok (some (unauthorized_response fresh s.opaque req false))
  check_credentials permissions req nonce fresh (some field) =
      get_auth H (some field) req.method s.auth_table nonce s.opaque >>= λ auth.
      ok (check_user permissions req nonce fresh auth)

  unfoldable pub check_permissions :
      AuthorizationType → Request → Str → Str → Outcome (Option (Response × Str))
  check_permissions permissions req nonce fresh =
      if is_blocked permissions
      then ok (some (forbidden_response req, nonce))
      else check_credentials permissions req nonce fresh req.authorization

  unfoldable pub check_access : Request → Str → Str → Outcome (Option (Response × Str))
  check_access req nonce fresh = elim (get_endpoint_permissions req.target) [
    | none ↦ ok none
    | some permissions ↦ check_permissions permissions req nonce fresh
  ]

  -- The file's response, by what opening it gave.
  unfoldable pub file_response : Str → Opened → Request → Response
  file_response path no_such_file req = not_found_response req
  file_response path (failed what) req = server_error_response what req
  file_response path (opened size) req =
      content_response (mime_type path) size (if is_head req.method then empty else file path) req

  unfoldable pub serve_file : Str → Request → Response
  serve_file path req = file_response path (open_file path) req

  -- The end of `/config`, with the list of maps.
  unfoldable pub config_reply : Request → Str → Response
  config_reply req map_config =
      if is_head req.method
      then content_response (codes "application/json") (length map_config) empty req
      else if is_get req.method
      then content_response (codes "application/json") (length map_config) (string map_config) req
      else bad_request_response (codes "Invalid method on /config") req

  -- `/config`: `user_auth_data.value()` throws where there is no user.
  unfoldable pub config_response : Request → Str → Outcome Response
  config_response req nonce = do
    user_auth_data ← get_auth H req.authorization req.method s.auth_table nonce s.opaque
    user ← or_raise user_auth_data
    map_config ← get_maps_for_client J s.config user
    ok (config_reply req map_config)

  -- `/maps/<id>`: the image of a map; a throw of `get_map_by_id` is caught.
  unfoldable pub map_response : Request → Outcome Response
  map_response req =
      if str_eq req.target (codes "/maps") || str_eq req.target (codes "/maps/")
      then ok (not_found_response req)
      else elim (get_map_by_id J s.config (drop 6 req.target)) [
        | ok m ↦ ok (serve_file m.map_image_path req)
        | raised ↦ ok (not_found_response req)
        | undefined ↦ undefined
      ]

  unfoldable pub file_path : Str → Str
  file_path target =
      if slash_last target
      then path_cat s.is_msvc s.doc_root target ++ codes "index.html"
      else if any (str_eq target) indexable_endpoints
      then path_cat s.is_msvc s.doc_root target ++ codes "/index.html"
      else path_cat s.is_msvc s.doc_root target

  unfoldable pub respond : Request → Str → Outcome Response
  respond req nonce =
      if is_target_single_level req.target (codes "config")
      then config_response req nonce
      else if target_starts_with_segment req.target (codes "maps")
      then map_response req
      else ok (serve_file (file_path req.target) req)

  -- The response and the nonce after it.
  unfoldable pub answer : Request → Str → Option (Response × Str) → Outcome (Response × Str)
  answer req nonce (some refusal) = ok refusal
  answer req nonce none = respond req nonce >>= λ res. ok (res, nonce)

  unfoldable pub handle_request : Request → Str → Str → Outcome (Response × Str)
  handle_request req nonce fresh =
      if not (is_get req.method) && not (is_head req.method)
      then ok (bad_request_response (codes "Unknown HTTP method") req, nonce)
      else if illegal_target req.target
      then ok (bad_request_response (codes "Illegal request target") req, nonce)
      else (check_access req nonce fresh >>= answer req nonce)
