-- ===== src/Auth/Digest.antt =====
-- src/auth.hpp and src/auth.cpp: the fields of a digest, and the check of a client's answer. The
-- hash (CryptoPP's SHA256 in lower-case hexadecimal) is a parameter.
pub mod Parsing
pub mod Checking
pub mod Login
use gate_control.Base.{
  ℕ, zero, suc, Bool, true, false, not, ◌&&◌, ◌||◌, List, [], ◌∷◌, ◌++◌, Option, none, some, length,
  ◌==◌, if◌then◌else◌, is_some,
}
use gate_control.Base.Text.{Str, codes, str_eq, starts_with}
use gate_control.Base.Outcome.{Outcome, ok, raised, ◌>>=◌, or_raise}
use gate_control.AuthTable.Types.{AuthData, AuthTable, find_user}
use gate_control.Auth.Fields.{Match, matches, unquote}

pub record DigestAuth : Type 0 where
  pub username : Str
  pub response : Str
  pub nonce : Str
  pub realm : Str
  pub uri : Str
  pub nc : Option Str
  pub cnonce : Option Str
  pub opaque : Option Str
  pub qop : Option Str

-- A digest before its fields are set.
abbrev pub no_fields : DigestAuth
no_fields = record {
  username = [];
  response = [];
  nonce = [];
  realm = [];
  uri = [];
  nc = none;
  cnonce = none;
  opaque = none;
  qop = none;
}

-- The tests exclude one another.
unfoldable pub set_field : Str → Str → DigestAuth → DigestAuth
set_field key value d =
    if str_eq key (codes "username")
    then record d { username = value }
    else if str_eq key (codes "response")
    then record d { response = value }
    else if str_eq key (codes "nonce")
    then record d { nonce = value }
    else if str_eq key (codes "realm")
    then record d { realm = value }
    else if str_eq key (codes "uri")
    then record d { uri = value }
    else if str_eq key (codes "nc")
    then record d { nc = some value }
    else if str_eq key (codes "cnonce")
    then record d { cnonce = some value }
    else if str_eq key (codes "opaque")
    then record d { opaque = some value }
    else if str_eq key (codes "qop")
    then record d { qop = some value }
    else d

abbrev is_set : Str → Bool
is_set s = not (length s == 0)

unfoldable pub is_valid : DigestAuth → Bool
is_valid d =
    if is_set d.username && is_set d.response && is_set d.nonce && is_set d.realm && is_set d.uri
    then if is_some d.qop
      then is_some d.cnonce && is_some d.nc
      else not (is_some d.cnonce) && not (is_some d.nc)
    else false

-- The loop over the matches. A match has its three groups always.
unfoldable pub set_fields : DigestAuth → List Match → DigestAuth
set_fields d [] = d
set_fields d (m ∷ ms) = set_fields (set_field m.key (unquote m.value) d) ms

abbrev checked : DigestAuth → Option DigestAuth
checked params = if is_valid params then some params else none

unfoldable pub parse_digest_auth_field : Str → Option DigestAuth
parse_digest_auth_field field_value =
    if starts_with field_value (codes "Digest")
    then checked (set_fields no_fields (matches (suc (length field_value)) field_value))
    else none

-- `generate_digest_response`: the challenge that a refused client gets.
unfoldable pub generate_digest_response : Str → Str → Bool → Str
generate_digest_response nonce opaque stale =
    codes "Digest realm=\"viewcontrol\", nonce=\""
    ++ (nonce
        ++ (codes "\", algorithm=SHA-256, qop=\"auth\", opaque=\""
            ++ (opaque ++ (b'"' ∷ (if stale then codes ", stale=TRUE" else [])))))

-- The verbs that `http_method_to_str` names; `other` is any other.
pub data Verb : Type 0 where
  get put delete head options connect other : Verb

unfoldable pub http_method_to_str : Verb → Str
http_method_to_str get = codes "GET"
http_method_to_str put = codes "PUT"
http_method_to_str delete = codes "DELETE"
http_method_to_str head = codes "HEAD"
http_method_to_str options = codes "OPTIONS"
http_method_to_str connect = codes "CONNECT"
http_method_to_str other = codes "unknown"

-- `optional != string`
abbrev pub differs : Option Str → Str → Bool
differs none s = true
differs (some o) s = not (str_eq o s)

abbrev pub colon : Str → Str → Str
colon a b = a ++ (b':' ∷ b)

module _ (sha256_hash : Str → Str) where
  unfoldable pub check_password : DigestAuth → Str → Str → Str → Str → AuthTable → Outcome Bool
  check_password d password method nonce opaque auth_table =
      if not (is_some (find_user d.username auth_table))
        || not (is_some d.qop)
        || not (is_some d.opaque)
        || differs d.opaque opaque
      then ok false
      else do
        nc ← or_raise d.nc
        cnonce ← or_raise d.cnonce
        qop ← or_raise d.qop
        let a1_hash = sha256_hash (colon d.username (colon d.realm password))
        let a2_hash = sha256_hash (colon method d.uri)
        let kd_unhashed = colon a1_hash (colon nonce (colon nc (colon cnonce (colon qop a2_hash))))
        ok (str_eq d.response (sha256_hash kd_unhashed))

  -- The arguments are the request's `Authorization` field and its method.
  unfoldable pub get_auth : Option Str → Verb → AuthTable → Str → Str → Outcome (Option AuthData)
  get_auth none method auth_table nonce opaque = ok none
  get_auth (some authorization) method auth_table nonce opaque =
      elim (parse_digest_auth_field authorization) [
        | none ↦ ok none
        | some digest ↦ elim (find_user digest.username auth_table) [
          | none ↦ ok none
          | some stored ↦ do
            granted ←
                check_password digest stored.password (http_method_to_str method) nonce opaque
                  auth_table
            ok (if granted then some stored else none)
        ]
      ]
