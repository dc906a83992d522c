-- ===== src/Http/Handler/Routes.antt =====
-- What each route of `handle_request` gives, and where it throws.
use gate_control.Base.{true, ◌||◌, Option, none, some, ◌≡◌, ◌⊎◌, inl, inr, refl, drop, Bool-cases}
use gate_control.Base.Text.{Str, codes, str_eq}
use gate_control.Base.Outcome.{ok, raised}
use gate_control.Json.{JsonLib}
use gate_control.AuthTable.Types.{AuthData}
use gate_control.Config.{get_maps_for_client, jsonify_maps}
use gate_control.Config.Visible.{get_map_by_id_cases}
use gate_control.Auth.Digest.{get_auth}
use gate_control.Http.Target.{is_target_single_level, target_starts_with_segment}
use gate_control.Http.Response.{Request, Response, not_found_response}
use gate_control.Http.Handler.{
  Opened, Server, config_reply, config_response, map_response, serve_file, file_path, respond,
}

module _ (J : JsonLib) (H : Str → Str) (open_file : Str → Opened) (s : Server J) where
  map_response-ok : (req : Request) → (res : Response) × (map_response J H open_file s req ≡ ok res)
  unfolding map_response
  map_response-ok req =
      elim (Bool-cases (str_eq req.target (codes "/maps") || str_eq req.target (codes "/maps/"))) [
        | inl bare ↦ (not_found_response req, rw bare)
        | inr longer ↦ elim (get_map_by_id_cases J s.config (drop 6 req.target)) [
          | inl (m, found, _) ↦
              (serve_file J H open_file s m.map_image_path req, rw (longer, found))
          | inr (missing, _) ↦ (not_found_response req, rw (longer, missing))
        ]
      ]

  -- The list of maps for a user, of which the library cannot write some string.
  abbrev pub IsUnwritable : Option AuthData → Type 0
  IsUnwritable auth =
      (user : AuthData) × (auth ≡ some user)
      × (J.dump (J.of_array (jsonify_maps J user s.config.maps)) ≡ raised)

  -- `dump` gives a text or throws.
  abbrev pub DumpEnds : Type 0
  DumpEnds = (v : J.Value) → ((t : Str) × (J.dump v ≡ ok t)) ⊎ (J.dump v ≡ raised)

  module _ (dump_ends : DumpEnds) where
    config_response_cases :
        (req : Request) (nonce : Str) (auth : Option AuthData)
        → get_auth H req.authorization req.method s.auth_table nonce s.opaque ≡ ok auth
        → (((auth ≡ none) ⊎ IsUnwritable auth)
            × (config_response J H open_file s req nonce ≡ raised))
          ⊎ ((res : Response) × (config_response J H open_file s req nonce ≡ ok res))
    unfolding config_response get_maps_for_client
    config_response_cases req nonce none checked = inl (inl refl, rw checked)
    config_response_cases req nonce (some user) checked =
        elim (dump_ends (J.of_array (jsonify_maps J user s.config.maps))) [
          | inl (t, written) ↦ inr (config_reply J H open_file s req t, rw (checked, written))
          | inr failed ↦ inl (inr (user, refl, failed), rw (checked, failed))
        ]

    -- The route throws for `/config` without a user or a text of the maps, and nowhere else.
    pub respond_cases :
        (req : Request) (nonce : Str) (auth : Option AuthData)
        → get_auth H req.authorization req.method s.auth_table nonce s.opaque ≡ ok auth
        → ((is_target_single_level req.target (codes "config") ≡ true)
            × ((auth ≡ none) ⊎ IsUnwritable auth)
            × (respond J H open_file s req nonce ≡ raised))
          ⊎ ((res : Response) × (respond J H open_file s req nonce ≡ ok res))
    unfolding respond
    respond_cases req nonce auth checked =
        elim (Bool-cases (is_target_single_level req.target (codes "config"))) [
          | inl config ↦ elim (config_response_cases req nonce auth checked) [
            | inl (why, e) ↦ inl (config, why, rw config e)
            | inr (res, e) ↦ inr (res, rw config e)
          ]
          | inr other ↦ elim (Bool-cases (target_starts_with_segment req.target (codes "maps"))) [
            | inl maps ↦ let (res, e) = map_response-ok req in inr (res, rw (other, maps) e)
            | inr file ↦ inr (
              serve_file J H open_file s (file_path J H open_file s req.target) req,
              rw (other, file),
            )
          ]
        ]
