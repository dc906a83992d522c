-- ===== src/Auth/Endpoint.antt =====
-- src/auth.hpp and src/auth.cpp: `endpoint_map` and `get_endpoint_permissions`.
pub mod Segments
use gate_control.Base.{
  ℕ, zero, suc, List, [], ◌∷◌, Option, none, some, length, take, ltb, if◌then◌else◌,
}
use gate_control.Base.Text.{Str, codes, starts_with, find_from, rfind_char}
use gate_control.AuthTable.Types.{AuthorizationType, view, control}

abbrev pub Endpoints : Type 0
Endpoints = List (Str × Option AuthorizationType)

abbrev pub endpoint_map : Endpoints
endpoint_map =
    (codes "/config", some view)
    ∷ (codes "/maps", some view)
    ∷ (codes "/control", some control)
    ∷ (codes "/view", some view)
    ∷ (codes "/", none)
    ∷ []

-- `path.substr(0, path.rfind('/'))`; a count of `npos` keeps the whole text.
unfoldable pub parent : Str → Str
parent path = elim (rfind_char b'/' path) [ none ↦ path | some i ↦ take i path ]

-- The loop over the map. `again` is the recursive call of the function itself.
unfoldable pub scan_endpoints :
    (Str → Option AuthorizationType) → Str → Endpoints → Option AuthorizationType
unfolding parent
scan_endpoints again path [] = none
scan_endpoints again path ((endpoint, permissions) ∷ es) =
    if starts_with path endpoint
    then if ltb (length endpoint) (length path)
      then elim (find_from b'/' path (length endpoint)) [
        | none ↦ none
        | some _ ↦ again (parent path)
      ]
      else permissions
    else scan_endpoints again path es

-- Each recursive call is on a shorter path, so the length bounds their number.
unfoldable pub permissions_within : ℕ → Str → Option AuthorizationType
permissions_within zero path = none
permissions_within (suc fuel) path = scan_endpoints (permissions_within fuel) path endpoint_map

unfoldable pub get_endpoint_permissions : Str → Option AuthorizationType
get_endpoint_permissions path = permissions_within (suc (length path)) path
