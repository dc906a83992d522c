-- ===== src/Auth/Endpoint/Segments.antt =====
-- What `get_endpoint_permissions` decides: the endpoint has to be the path's first segment.
use gate_control.Base.{
  ℕ, zero, suc, ◌≤◌, ◌<◌, Bool, true, false, [], ◌∷◌, Option, none, some, length, length-take-le,
  length-drop, drop-all, ap, take, drop, ltb, ◌==◌, if◌then◌else◌, ◌≡◌, refl, sym, ◌∙◌, drop-nil,
  inl, inr, arith, Bool-cases, Option-cases,
}
use gate_control.Base.Text.{Str, starts_with, find_char, find_from, rfind_char}
use gate_control.AuthTable.Types.{AuthorizationType}
use gate_control.Auth.Endpoint.{
  Endpoints, endpoint_map, parent, scan_endpoints, permissions_within, get_endpoint_permissions,
}

-- A segment ends here: at the end of the path, or at a slash.
abbrev pub ends_segment : Str → Bool
ends_segment [] = true
ends_segment (c ∷ s) = c == b'/'

-- The first endpoint that the path begins with decides, if it ends a segment there.
pub access : Endpoints → Str → Option AuthorizationType
access [] path = none
access ((endpoint, permissions) ∷ es) path =
    if starts_with path endpoint
    then if ends_segment (drop (length endpoint) path) then permissions else none
    else access es path

starts_with-take : (s p : Str) (n : ℕ) → length p ≤ n → starts_with (take n s) p ≡ starts_with s p
unfolding starts_with
starts_with-take s [] n h = refl
starts_with-take s (y ∷ p) zero h = absurd (omega arith)
starts_with-take [] (y ∷ p) (suc n) h = refl
starts_with-take (x ∷ s) (y ∷ p) (suc n) h = ground (arith, starts_with-take s p n)

starts_with_of_take : (s p : Str) (n : ℕ) → starts_with (take n s) p ≡ true → starts_with s p ≡ true
unfolding starts_with
starts_with_of_take s [] n h = refl
starts_with_of_take s (y ∷ p) zero h = cc
starts_with_of_take [] (y ∷ p) (suc n) h = h
starts_with_of_take (x ∷ s) (y ∷ p) (suc n) h = ground (arith, starts_with_of_take s p n)

-- The first entry whose endpoint the path begins with.
first : Endpoints → Str → Option (Str × Option AuthorizationType)
first [] path = none
first ((endpoint, permissions) ∷ es) path =
    if starts_with path endpoint then some (endpoint, permissions) else first es path

abbrev decide : Str → Option (Str × Option AuthorizationType) → Option AuthorizationType
decide path none = none
decide path (some (endpoint, permissions)) =
    if ends_segment (drop (length endpoint) path) then permissions else none

access-first : (es : Endpoints) (path : Str) → access es path ≡ decide path (first es path)
unfolding access first
access-first [] path = refl
access-first ((e, p) ∷ es) path = ground (arith, access-first es path)

first-take :
    (es : Endpoints) (path : Str) (n : ℕ) (e : Str) (p : Option AuthorizationType)
    → length e ≤ n
    → first es path ≡ some (e, p)
    → first es (take n path) ≡ some (e, p)
unfolding first
first-take [] path n e p h found = cc
first-take ((e0, p0) ∷ es) path n e p h found = elim (Bool-cases (starts_with path e0)) [
  | inl yes0 ↦ let same : e0 ≡ e = ground arith in ground (arith, starts_with-take path e n h, same)
  | inr no0 ↦
      ground (arith, starts_with_of_take path e0 n, first-take es path n e p h (rw no0 at found))
]

-- `scan_endpoints`, on the entry that it finds.
abbrev go_up :
    (Str → Option AuthorizationType)
    → Str
    → Option (Str × Option AuthorizationType)
    → Option AuthorizationType
go_up again path none = none
go_up again path (some (e, p)) =
    if ltb (length e) (length path)
    then elim (find_from b'/' path (length e)) [ none ↦ none | some _ ↦ again (parent path) ]
    else p

scan_endpoints-first :
    (again : Str → Option AuthorizationType) (path : Str) (es : Endpoints)
    → scan_endpoints again path es ≡ go_up again path (first es path)
unfolding scan_endpoints first
scan_endpoints-first again path [] = refl
scan_endpoints-first again path ((e, p) ∷ es) = elim (Bool-cases (starts_with path e)) [
  | inl hit ↦ rw hit
  | inr miss ↦ rw miss (scan_endpoints-first again path es)
]

-- Where `rfind` finds the byte.
rfind_char-lt :
    (c : ℕ) (s : Str) (i : ℕ)
    → rfind_char c s ≡ some i
    → (i < length s) × (drop i s ≡ c ∷ drop (suc i) s)
unfolding rfind_char
rfind_char-lt c [] i h = cc
rfind_char-lt c (x ∷ s) zero h = (omega arith, ground (arith, Option-cases (rfind_char c s)))
rfind_char-lt c (x ∷ s) (suc i) h =
    ground (arith, Option-cases (rfind_char c s), rfind_char-lt c s i)

-- A byte from a position on is not after the last one.
rfind_char-ge :
    (c : ℕ) (s : Str) (n j : ℕ)
    → find_char c (drop n s) ≡ some j
    → (i : ℕ) × (rfind_char c s ≡ some i) × (n ≤ i)
unfolding rfind_char find_char
rfind_char-ge c [] zero j h = cc
rfind_char-ge c [] (suc n) j h = cc
rfind_char-ge c (x ∷ s) zero j h = elim (Option-cases (rfind_char c s)) [
  | inl missing ↦ elim (Bool-cases (x == c)) [
    | inl hit ↦ (0, rw (missing, rfind_char, hit), omega arith)
    | inr miss ↦ elim (Option-cases (find_char c s)) [
      | inl lacking ↦ absurd (ground arith)
      | inr (k, found) ↦ let (i, last, _) = rfind_char-ge c s zero k found in absurd (ground arith)
    ]
  ]
  | inr (i, found) ↦ (suc i, rw (found, rfind_char), omega arith)
]
rfind_char-ge c (x ∷ s) (suc n) j h =
    let (i, found, le) = rfind_char-ge c s n j h in (suc i, rw (found, rfind_char), omega arith)

ends_segment-take :
    (path : Str) (n i : ℕ)
    → n ≤ i
    → drop i path ≡ b'/' ∷ drop (suc i) path
    → ends_segment (drop n (take i path)) ≡ ends_segment (drop n path)
ends_segment-take [] n i h e = let e' : ◌≡◌ {A = Str} (b'/' ∷ []) [] = sym e ∙ drop-nil i in cc
ends_segment-take (x ∷ path) zero zero h e = ground arith
ends_segment-take (x ∷ path) zero (suc i) h e = refl
ends_segment-take (x ∷ path) (suc n) zero h e = absurd (omega arith)
ends_segment-take (x ∷ path) (suc n) (suc i) h e = ends_segment-take path n i (omega arith) e

not-ends_segment : (s : Str) → 0 < length s → find_char b'/' s ≡ none → ends_segment s ≡ false
unfolding find_char
not-ends_segment [] h e = absurd (omega arith)
not-ends_segment (x ∷ s) h e = ground arith

-- The step up to the parent, where the recursive call is right.
module _ (again : Str → Option AuthorizationType) (es : Endpoints) (path e : Str)
    (p : Option AuthorizationType) (found : first es path ≡ some (e, p))
    (ih : (q : Str) → length q < length path → again q ≡ access es q) where
  again-parent :
      (j : ℕ)
      → find_char b'/' (drop (length e) path) ≡ some j
      → again (parent path) ≡ decide path (some (e, p))
  unfolding parent
  again-parent j h =
      let (i, last, le) = rfind_char-ge b'/' path (length e) j h in
      let (lt, slash) = rfind_char-lt b'/' path i last in
      let up : again (take i path) ≡ access es (take i path) =
        ih (take i path) (omega (arith, length-take-le i path)) in
      rw (last, parent)
        (up
          ∙ access-first es (take i path)
          ∙ ap (decide (take i path)) (first-take es path i e p le found)
          ∙ ap (λ b. if b then p else none) (ends_segment-take path (length e) i le slash))

  go_up-decide : go_up again path (some (e, p)) ≡ decide path (some (e, p))
  unfolding find_from
  go_up-decide = elim (Bool-cases (ltb (length e) (length path))) [
    | inl longer ↦ elim (Option-cases (find_char b'/' (drop (length e) path))) [
      | inl lacking ↦
          ground (arith, not-ends_segment (drop (length e) path), length-drop (length e) path)
      | inr (j, slash) ↦ rw (longer, slash) (again-parent j slash)
    ]
    | inr whole ↦ rw (whole, drop-all (length e) path (ground arith))
  ]

go_up-first :
    (again : Str → Option AuthorizationType) (es : Endpoints) (path : Str)
    → ((q : Str) → length q < length path → again q ≡ access es q)
    → (o : Option (Str × Option AuthorizationType)) → first es path ≡ o
    → go_up again path o ≡ decide path o
go_up-first again es path ih none found = refl
go_up-first again es path ih (some (e, p)) found = go_up-decide again es path e p found ih

permissions_within-access :
    (fuel : ℕ) (path : Str)
    → length path < fuel
    → permissions_within fuel path ≡ access endpoint_map path
unfolding permissions_within
permissions_within-access zero path h = absurd (omega arith)
permissions_within-access (suc fuel) path h =
    let ih : (q : Str)
        → length q < length path
        → permissions_within fuel q ≡ access endpoint_map q =
      λ q less. permissions_within-access fuel q (omega arith) in
    scan_endpoints-first (permissions_within fuel) path endpoint_map
    ∙ go_up-first (permissions_within fuel) endpoint_map path ih (first endpoint_map path) refl
    ∙ sym (access-first endpoint_map path)

-- The permissions of a path are those of the first endpoint that it begins with, where that is the
-- path's whole first segment; any other path has none, and is open to all.
pub get_endpoint_permissions-access :
    (path : Str) → get_endpoint_permissions path ≡ access endpoint_map path
unfolding get_endpoint_permissions
get_endpoint_permissions-access path =
    permissions_within-access (suc (length path)) path (omega arith)

-- With two slashes at the front the first segment is empty, and no endpoint's.
pub get_endpoint_permissions-slashes :
    (rest : Str) → get_endpoint_permissions (b'/' ∷ b'/' ∷ rest) ≡ none
unfolding access starts_with
get_endpoint_permissions-slashes rest = get_endpoint_permissions-access (b'/' ∷ b'/' ∷ rest)
