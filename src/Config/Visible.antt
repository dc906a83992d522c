-- ===== src/Config/Visible.antt =====
-- Which maps a client is shown, and which one it gets by its id.
use gate_control.Base.{
  true, false, List, [], ◌∷◌, Option, none, some, any, ◌≡◌, ◌≢◌, ◌⊎◌, inl, inr, refl, All, arith,
  Bool-cases,
}
use gate_control.Base.Text.{Str, str_eq}
use gate_control.Base.Text.Laws.{str_eq_iff}
use gate_control.Base.Outcome.{ok, raised}
use gate_control.Json.{JsonLib}
use gate_control.AuthTable.Types.{AuthData, AuthorizationType, blocked, view, control}
use gate_control.Config.{
  hides, MapEntry, GcConfig, to_client_json, is_hidden, jsonify_maps, find_map, get_map_by_id,
}

-- The group is in the list.
abbrev pub Among : Str → List Str → Type 0
Among g [] = ⊥
Among g (h ∷ gs) = (g ≡ h) ⊎ Among g gs

any-Among : (g : Str) (gs : List Str) → any (str_eq g) gs ≡ true → Among g gs
any-Among g [] h = cc
any-Among g (x ∷ gs) h = elim (Bool-cases (str_eq g x)) [
  | inl same ↦ inl ((str_eq_iff g x).0 same)
  | inr other ↦ inr (any-Among g gs (ground arith))
]

not-Among : (g : Str) (gs : List Str) → any (str_eq g) gs ≡ false → ¬ Among g gs
not-Among g [] h m = m
not-Among g (x ∷ gs) h (inl e) = let same = (str_eq_iff g x).1 e in absurd (ground arith)
not-Among g (x ∷ gs) h (inr m) = not-Among g gs (ground arith) m

-- A user with these permissions and groups may see a map of this group: without the control
-- permissions any map, and with them a map of no group or of one of the user's own.
abbrev pub MaySee : AuthorizationType → List Str → Option Str → Type 0
MaySee permissions groups group =
    (permissions ≢ control) ⊎ ((group ≡ none) ⊎ ((g : Str) × (group ≡ some g) × Among g groups))

hides_cases :
    (p : AuthorizationType) (gs : List Str) (o : Option Str)
    → ((hides p gs o ≡ false) × MaySee p gs o) ⊎ ((hides p gs o ≡ true) × (¬ MaySee p gs o))
hides_cases p gs none = inl (refl, inr (inl refl))
hides_cases blocked gs (some g) = inl (refl, inl (λ e. cc))
hides_cases view gs (some g) = inl (refl, inl (λ e. cc))
hides_cases control gs (some g) = elim (Bool-cases (any (str_eq g) gs)) [
  | inl own ↦ inl (rw own, inr (inr (g, refl, any-Among g gs own)))
  | inr other ↦ inr (rw other, not_seen (not-Among g gs other))
]
  where
    not_seen : ¬ Among g gs → ¬ MaySee control gs (some g)
    not_seen k (inl ne) = ne refl
    not_seen k (inr (inl e)) = cc
    not_seen k (inr (inr (h, e, m))) = let same : g ≡ h = cc in k (rw same m)

module _ (J : JsonLib) where
  -- What is listed: the maps that the user may see, in order, and no other.
  pub data Lists (user : AuthData) : List (MapEntry J) → List J.Value → Type 0 where
    end : Lists user [] []
    shown :
        {m : MapEntry J} {ms : List (MapEntry J)} {vs : List J.Value}
        → MaySee user.permissions user.map_groups m.group
        → Lists user ms vs
        → Lists user (m ∷ ms) (to_client_json J m ∷ vs)
    skipped :
        {m : MapEntry J} {ms : List (MapEntry J)} {vs : List J.Value}
        → (¬ MaySee user.permissions user.map_groups m.group)
        → Lists user ms vs
        → Lists user (m ∷ ms) vs

  -- A client's list of maps has those maps that its user may see, in the order of the config file.
  pub jsonify_maps-Lists :
      (user : AuthData) (ms : List (MapEntry J)) → Lists user ms (jsonify_maps J user ms)
  unfolding jsonify_maps is_hidden
  jsonify_maps-Lists user [] = end
  jsonify_maps-Lists user (m ∷ ms) = elim (hides_cases user.permissions user.map_groups m.group) [
    | inl (e, may) ↦ rw e (shown may (jsonify_maps-Lists user ms))
    | inr (e, may_not) ↦ rw e (skipped may_not (jsonify_maps-Lists user ms))
  ]

  -- The first map with the id.
  pub data FirstWith (id : Str) : List (MapEntry J) → MapEntry J → Type 0 where
    here : {m : MapEntry J} {ms : List (MapEntry J)} → m.id ≡ id → FirstWith id (m ∷ ms) m
    later :
        {m n : MapEntry J} {ms : List (MapEntry J)}
        → n.id ≢ id
        → FirstWith id ms m
        → FirstWith id (n ∷ ms) m

  find_map_cases :
      (id : Str) (ms : List (MapEntry J))
      → ((m : MapEntry J) × (find_map J id ms ≡ ok m) × FirstWith id ms m)
        ⊎ ((find_map J id ms ≡ raised) × All (λ m. m.id ≢ id) ms)
  unfolding find_map
  find_map_cases id [] = inr (refl, tt)
  find_map_cases id (m ∷ ms) = elim (Bool-cases (str_eq m.id id)) [
    | inl same ↦ inl (m, rw same, here ((str_eq_iff m.id id).0 same))
    | inr other ↦
        let apart : m.id ≢ id = λ e. cc (other, (str_eq_iff m.id id).1 e) in
        elim (find_map_cases id ms) [
          | inl (n, found, first) ↦ inl (n, rw other found, later apart first)
          | inr (missing, none_has) ↦ inr (rw other missing, (apart, none_has))
        ]
  ]

  -- A lookup by id gives the first map with that id, and throws exactly if no map has it.
  pub get_map_by_id_cases :
      (c : GcConfig J) (id : Str)
      → ((m : MapEntry J) × (get_map_by_id J c id ≡ ok m) × FirstWith id c.maps m)
        ⊎ ((get_map_by_id J c id ≡ raised) × All (λ m. m.id ≢ id) c.maps)
  unfolding get_map_by_id
  get_map_by_id_cases c id = find_map_cases id c.maps
