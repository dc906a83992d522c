-- ===== src/Http/Response.antt =====
-- The parts of a Boost.Beast request that the source reads, and of a response that it sets.
use gate_control.Base.{ℕ, Bool, Option, none, some, ◌++◌}
use gate_control.Base.Text.{Str, codes}
use gate_control.Auth.Digest.{Verb, generate_digest_response}

-- `authorization` is the field of that name; `upgrade` is what `websocket::is_upgrade` says.
pub record Request : Type 0 where
  pub method : Verb
  pub target : Str
  pub version : ℕ
  pub keep_alive : Bool
  pub upgrade : Bool
  pub authorization : Option Str

pub data Status : Type 0 where
  success bad_request unauthorized forbidden not_found internal_server_error : Status

-- A body in memory, or the file that is sent.
pub data Body : Type 0 where
  empty : Body
  string : Str → Body
  file : Str → Body

-- `prepare_payload`, or a length that the source sets itself.
pub data Length : Type 0 where
  prepared : Length
  fixed : ℕ → Length

-- The server field is `VERSION` in every response.
pub record Response : Type 0 where
  pub status : Status
  pub version : ℕ
  pub keep_alive : Bool
  pub content_type : Option Str
  pub www_authenticate : Option Str
  pub length : Length
  pub body : Body

abbrev pub text_response : Status → Option Str → Str → Request → Response
text_response status type body req = record {
  status = status;
  version = req.version;
  keep_alive = req.keep_alive;
  content_type = type;
  www_authenticate = none;
  length = prepared;
  body = string body;
}

unfoldable pub bad_request_response : Str → Request → Response
bad_request_response why = text_response bad_request (some (codes "text/html")) why

unfoldable pub not_found_response : Request → Response
not_found_response req =
    text_response not_found (some (codes "text/html"))
      (codes "The resource '" ++ (req.target ++ codes "' was not found.")) req

unfoldable pub server_error_response : Str → Request → Response
server_error_response what =
    text_response internal_server_error (some (codes "text/html"))
      (codes "An error occured: '" ++ (what ++ codes "'"))

unfoldable pub forbidden_response : Request → Response
forbidden_response req =
    text_response forbidden none
      (codes "Access to resource '" ++ (req.target ++ codes "' is forbidden")) req

-- `unauthorized_response`: the response and the new nonce, which replaces the old one. `fresh` is
-- what `generate_base64_str` returns.
unfoldable pub unauthorized_response : Str → Str → Request → Bool → Response × Str
unauthorized_response fresh opaque req stale = (
  record (text_response unauthorized none
      (codes "Unauthorized client on resource '" ++ (req.target ++ codes "'.")) req) {
        www_authenticate = some (generate_digest_response fresh opaque stale);
      },
  fresh,
)

abbrev pub content_response : Str → ℕ → Body → Request → Response
content_response type size body req = record {
  status = success;
  version = req.version;
  keep_alive = req.keep_alive;
  content_type = some type;
  www_authenticate = none;
  length = fixed size;
  body = body;
}
