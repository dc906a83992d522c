-- ===== src/Auth/Digest/Login.antt =====
-- A client that knows the password gets in.
use gate_control.Base.{true, some, ◌≡◌, All}
use gate_control.Base.Text.{Str}
use gate_control.Base.Outcome.{ok}
use gate_control.AuthTable.Types.{AuthData, AuthTable, find_user}
use gate_control.Auth.Fields.Written.{IsField}
use gate_control.Auth.Digest.{DigestAuth, is_valid, Verb, http_method_to_str, get_auth}
use gate_control.Auth.Digest.Parsing.{
  digest_fields, digest_text, parse_digest_auth_field-digest_text,
}
use gate_control.Auth.Digest.Checking.{IsAnswer, get_auth_iff}

-- A field that a client writes for a login of the table, with fields that can be quoted and the
-- right answer, lets that user in.
pub get_auth-digest_text :
    (H : Str → Str) (d : DigestAuth) (method : Verb) (t : AuthTable) (nonce opaque : Str)
    (user : AuthData)
    → All IsField (digest_fields d)
    → is_valid d ≡ true
    → find_user d.username t ≡ some user
    → IsAnswer H d user.password (http_method_to_str method) nonce opaque
    → get_auth H (some (digest_text d)) method t nonce opaque ≡ ok (some user)
get_auth-digest_text H d method t nonce opaque user v valid known answer =
    (get_auth_iff H (digest_text d) method t nonce opaque user).1 (record {
      digest = d;
      parsed = parse_digest_auth_field-digest_text d v valid;
      known = known;
      answer = answer;
    })
