-- ===== src/Auth/Digest/Parsing.antt =====
-- What is read from an `Authorization` field, and from the challenge.
use gate_control.Base.{
  ℕ, suc, ◌≤◌, ◌<◌, Bool, true, false, List, [], ◌∷◌, ◌++◌, Option, none, some, length,
  length-append, if◌then◌else◌, ◌≡◌, refl, ap, ◌∙◌, map, All, arith,
}
use gate_control.Base.Text.{Str, codes, str_eq, starts_with}
use gate_control.Auth.Fields.{Match, matches, unquote}
use gate_control.Auth.Fields.Written.{Field, quotes, word, pair, field_text, fields_text, IsField}
use gate_control.Auth.Fields.RoundTrip.{key_value, matches-Digest}
use gate_control.Auth.Digest.{
  DigestAuth, no_fields, set_field, set_fields, is_valid, parse_digest_auth_field,
  generate_digest_response,
}

-- The fields matter, and not how they were written.
set_pairs : DigestAuth → List (Str × Str) → DigestAuth
set_pairs d [] = d
set_pairs d ((k, v) ∷ ps) = set_pairs (set_field k v d) ps

set_fields-pairs :
    (d : DigestAuth) (ms : List Match) → set_fields d ms ≡ set_pairs d (map key_value ms)
unfolding set_fields set_pairs
set_fields-pairs d [] = refl
set_fields-pairs d (m ∷ ms) = set_fields-pairs (set_field m.key (unquote m.value) d) ms

length-field_text : (f : Field) (s : Str) → length s < length (field_text f s)
length-field_text (quotes k v) s =
    omega (arith, length-append k (b'=' ∷ b'"' ∷ (v ++ (b'"' ∷ s))), length-append v (b'"' ∷ s))
length-field_text (word k v) s = omega (arith, length-append k (b'=' ∷ (v ++ s)), length-append v s)

length-fields_text : (fs : List Field) → length fs ≤ length (fields_text fs)
length-fields_text [] = omega arith
length-fields_text (f ∷ []) = omega (arith, length-field_text f [])
length-fields_text (f ∷ g ∷ fs) =
    omega
      (arith, length-field_text f (b',' ∷ b' ' ∷ fields_text (g ∷ fs)), length-fields_text (g ∷ fs))

-- How a client writes a digest.
abbrev optional : Option Str → (Str → Field) → List Field → List Field
optional none f rest = rest
optional (some v) f rest = f v ∷ rest

abbrev more_fields : DigestAuth → List Field
more_fields d =
    quotes (codes "realm") d.realm
    ∷ quotes (codes "nonce") d.nonce
    ∷ quotes (codes "uri") d.uri
    ∷ quotes (codes "response") d.response
    ∷ optional d.opaque (quotes (codes "opaque")) (
        optional d.qop (word (codes "qop"))
          (optional d.nc (word (codes "nc")) (optional d.cnonce (quotes (codes "cnonce")) [])))

abbrev pub digest_fields : DigestAuth → List Field
digest_fields d = quotes (codes "username") d.username ∷ more_fields d

abbrev pub digest_text : DigestAuth → Str
digest_text d = codes "Digest " ++ fields_text (digest_fields d)

set_pairs-digest_fields :
    (d : DigestAuth) (opaque qop nc cnonce : Option Str)
    → set_pairs no_fields (
        map pair
          (digest_fields (record d { opaque = opaque; qop = qop; nc = nc; cnonce = cnonce })))
      ≡ record d { opaque = opaque; qop = qop; nc = nc; cnonce = cnonce }
unfolding set_pairs set_field str_eq
set_pairs-digest_fields d o q n c = ground arith

-- A valid digest that is written by its fields is read as it was.
pub parse_digest_auth_field-digest_text :
    (d : DigestAuth)
    → All IsField (digest_fields d)
    → is_valid d ≡ true
    → parse_digest_auth_field (digest_text d) ≡ some d
unfolding parse_digest_auth_field starts_with
parse_digest_auth_field-digest_text d v valid = rw (read, valid)
  where
    read : set_fields no_fields (matches (suc (length (digest_text d))) (digest_text d)) ≡ d
    read =
        set_fields-pairs no_fields (matches (suc (length (digest_text d))) (digest_text d))
        ∙ ap (set_pairs no_fields) (
            matches-Digest (suc (length (digest_text d))) (quotes (codes "username") d.username)
              (more_fields d) (omega (arith, length-fields_text (digest_fields d))) v)
        ∙ set_pairs-digest_fields d d.opaque d.qop d.nc d.cnonce

-- What a client reads in the challenge.
abbrev after_realm : Str → Str → Bool → List Field
after_realm nonce opaque stale =
    quotes (codes "nonce") nonce
    ∷ word (codes "algorithm") (codes "SHA-256")
    ∷ quotes (codes "qop") (codes "auth")
    ∷ quotes (codes "opaque") opaque
    ∷ (if stale then word (codes "stale") (codes "TRUE") ∷ [] else [])

abbrev realm_field : Field
realm_field = quotes (codes "realm") (codes "viewcontrol")

generate_digest_response-fields :
    (nonce opaque : Str) (stale : Bool)
    → generate_digest_response nonce opaque stale
      ≡ codes "Digest " ++ fields_text (realm_field ∷ after_realm nonce opaque stale)
unfolding generate_digest_response
generate_digest_response-fields nonce opaque true = refl
generate_digest_response-fields nonce opaque false = refl

realm_field-IsField : IsField realm_field
realm_field-IsField = ground arith

after_realm-IsField :
    (nonce opaque : Str) (stale : Bool)
    → IsField (quotes (codes "nonce") nonce)
    → IsField (quotes (codes "opaque") opaque)
    → All IsField (after_realm nonce opaque stale)
after_realm-IsField nonce opaque true n o =
    (n, (ground arith, (ground arith, (o, (ground arith, tt)))))
after_realm-IsField nonce opaque false n o = (n, (ground arith, (ground arith, (o, tt))))

-- A client reads the nonce and the opaque value back from the challenge, and whether its own nonce
-- was stale, where neither of the two holds a quote or a line end.
pub generate_digest_response-matches :
    (nonce opaque : Str) (stale : Bool) (fuel : ℕ)
    → 6 < fuel
    → IsField (quotes (codes "nonce") nonce)
    → IsField (quotes (codes "opaque") opaque)
    → map key_value (matches fuel (generate_digest_response nonce opaque stale))
      ≡ (codes "realm", codes "viewcontrol")
        ∷ (codes "nonce", nonce)
        ∷ (codes "algorithm", codes "SHA-256")
        ∷ (codes "qop", codes "auth")
        ∷ (codes "opaque", opaque)
        ∷ (if stale then (codes "stale", codes "TRUE") ∷ [] else [])
generate_digest_response-matches nonce opaque stale fuel h n o =
    ap (λ s. map key_value (matches fuel s)) (generate_digest_response-fields nonce opaque stale)
    ∙ matches-Digest fuel realm_field (after_realm nonce opaque stale) (short stale)
        (realm_field-IsField, after_realm-IsField nonce opaque stale n o)
    ∙ pairs stale
  where
    short : (b : Bool) → length (realm_field ∷ after_realm nonce opaque b) < fuel
    short true = omega arith
    short false = omega arith

    pairs :
        (b : Bool)
        → map pair (realm_field ∷ after_realm nonce opaque b)
          ≡ (codes "realm", codes "viewcontrol")
            ∷ (codes "nonce", nonce)
            ∷ (codes "algorithm", codes "SHA-256")
            ∷ (codes "qop", codes "auth")
            ∷ (codes "opaque", opaque)
            ∷ (if b then (codes "stale", codes "TRUE") ∷ [] else [])
    pairs true = refl
    pairs false = refl
