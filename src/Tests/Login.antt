-- ===== src/Tests/Login.antt =====
-- Digest authentication at a concrete client, with a constant in the place of the hash.
use gate_control.Base.{List, [], ◌∷◌, Option, some, ◌≡◌, ◌↔◌, refl, arith, true, map, All}
use gate_control.Base.Text.{Str, codes, str_eq}
use gate_control.Base.Outcome.{ok}
use gate_control.AuthTable.Types.{AuthData, AuthTable, control, find_user}
use gate_control.Auth.Endpoint.{endpoint_map, get_endpoint_permissions}
use gate_control.Auth.Endpoint.Segments.{access, get_endpoint_permissions-access}
use gate_control.Auth.Fields.{matches}
use gate_control.Auth.Fields.Written.{Field, quotes, word, pair, fields_text, IsField}
use gate_control.Auth.Fields.RoundTrip.{key_value, matches-fields_text}
use gate_control.Auth.Digest.{
  DigestAuth, get, http_method_to_str, is_valid, generate_digest_response, parse_digest_auth_field,
  get_auth,
}
use gate_control.Auth.Digest.Parsing.{
  digest_fields, digest_text, parse_digest_auth_field-digest_text, generate_digest_response-matches,
}
use gate_control.Auth.Digest.Checking.{IsAnswer, IsGranted, get_auth-ok, get_auth_iff}
use gate_control.Auth.Digest.Login.{get_auth-digest_text}

abbrev pub hash : Str → Str
hash s = codes "ab"

abbrev pub john : AuthData
john = record { permissions = control; map_groups = []; password = codes "secret" }

abbrev pub users : AuthTable
users = (codes "john", john) ∷ []

abbrev digest : DigestAuth
digest = record {
  username = codes "john";
  response = codes "ab";
  nonce = codes "n1";
  realm = codes "viewcontrol";
  uri = codes "/control";
  nc = some (codes "00000001");
  cnonce = some (codes "c1");
  opaque = some (codes "o1");
  qop = some (codes "auth");
}

digest-IsField : All IsField (digest_fields digest)
digest-IsField = ground arith

digest-is_valid : is_valid digest ≡ true
unfolding is_valid
digest-is_valid = refl

digest-IsAnswer : IsAnswer hash digest (codes "secret") (codes "GET") (codes "n1") (codes "o1")
digest-IsAnswer = record {
  qop = codes "auth";
  nc = codes "00000001";
  cnonce = codes "c1";
  opaque_same = refl;
  qop_given = refl;
  nc_given = refl;
  cnonce_given = refl;
  response_same = refl;
}

john_known : find_user (codes "john") users ≡ some john
unfolding find_user str_eq
john_known = refl

get_endpoint_permissions-access_example :
    get_endpoint_permissions (codes "/control/a/b") ≡ access endpoint_map (codes "/control/a/b")
get_endpoint_permissions-access_example = get_endpoint_permissions-access (codes "/control/a/b")

abbrev two_fields : List Field
two_fields = quotes (codes "realm") (codes "x y") ∷ word (codes "nc") (codes "01") ∷ []

matches-fields_text_example :
    map key_value (matches 3 (fields_text two_fields)) ≡ map pair two_fields
matches-fields_text_example = matches-fields_text 3 two_fields (omega arith) (ground arith)

parse_digest_auth_field-digest_text_example :
    parse_digest_auth_field (digest_text digest) ≡ some digest
parse_digest_auth_field-digest_text_example =
    parse_digest_auth_field-digest_text digest digest-IsField digest-is_valid

generate_digest_response-matches_example :
    map key_value (matches 9 (generate_digest_response (codes "n1") (codes "o1") true))
    ≡ (codes "realm", codes "viewcontrol")
      ∷ (codes "nonce", codes "n1")
      ∷ (codes "algorithm", codes "SHA-256")
      ∷ (codes "qop", codes "auth")
      ∷ (codes "opaque", codes "o1")
      ∷ (codes "stale", codes "TRUE")
      ∷ []
generate_digest_response-matches_example =
    generate_digest_response-matches (codes "n1") (codes "o1") true 9 (omega arith) (ground arith)
      (ground arith)

get_auth-ok_example :
    (r : Option AuthData) × (get_auth hash
        (some (digest_text digest))
        get
        users
        (codes "n1")
        (codes "o1")
      ≡ ok r)
get_auth-ok_example =
    get_auth-ok hash (some (digest_text digest)) get users (codes "n1") (codes "o1")

get_auth_iff_example :
    (get_auth hash (some (digest_text digest)) get users (codes "n1") (codes "o1") ≡ ok (some john))
    ↔ IsGranted hash (digest_text digest) get users (codes "n1") (codes "o1") john
get_auth_iff_example =
    get_auth_iff hash (digest_text digest) get users (codes "n1") (codes "o1") john

get_auth-digest_text_example :
    get_auth hash (some (digest_text digest)) get users (codes "n1") (codes "o1") ≡ ok (some john)
get_auth-digest_text_example =
    get_auth-digest_text hash digest get users (codes "n1") (codes "o1") john digest-IsField
      digest-is_valid john_known answer
  where
    answer :
        IsAnswer hash digest (codes "secret") (http_method_to_str get) (codes "n1") (codes "o1")
    answer = unfold http_method_to_str in digest-IsAnswer
