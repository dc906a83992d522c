-- ===== src/Tests/Sessions.antt =====
-- A connection that reads requests.
use gate_control.Base.{◌∷◌, [], none, some, ◌≡◌, ◌⊎◌, refl, true, false}
use gate_control.Base.Text.{Str, codes, str_eq}
use gate_control.Base.Outcome.{Outcome, ok, raised}
use gate_control.Auth.Digest.{get}
use gate_control.Http.Response.{Request, Response, bad_request_response}
use gate_control.Http.Session.{HttpSession, received, on_read, new_http_session, reads, start, next}
use gate_control.Http.Session.Queue.{writing, Answers, Reaches-Answers}
use gate_control.Http.Session.Upgrade.{on_upgrade, IsUpgraded, on_upgrade_cases}
use gate_control.Base.Text.Laws.{str_eq_iff}
use gate_control.Http.Listener.{Nonces, connected}
use gate_control.Http.Listener.Nonces.{IsAccepted, on_accept-IsAccepted}
use gate_control.Tests.Login.{hash, users}

abbrev request : Request
request = record {
  method = get;
  target = codes "/";
  version = 11;
  keep_alive = true;
  upgrade = false;
  authorization = none;
}

abbrev refusing : Request → Str → Outcome (Response × Str)
refusing req nonce = ok (bad_request_response [] req, nonce)

abbrev busy : HttpSession
busy = record (writing (bad_request_response [] request) (new_http_session (codes "n1"))) {
  is_reading = true;
}

one_request :
    on_read refusing (codes "o1") (codes "n2") (received request) (new_http_session (codes "n1"))
    ≡ ok (some busy)
unfolding on_read bad_request_response
one_request = refl

Reaches-Answers_example :
    (busy.response_queue ≡ [])
    × Answers refusing request (bad_request_response [] request) (codes "n1") busy
Reaches-Answers_example =
    Reaches-Answers refusing (codes "o1") request (bad_request_response [] request) (codes "n1")
      (codes "n1") busy (next start (reads (received request) (codes "n2") refl one_request)) refl

abbrev upgrade : Request
upgrade = record request { upgrade = true; authorization = some (codes "Basic am9obg==") }

on_upgrade_cases_example :
    ((upgrade.authorization ≡ none)
      × (on_upgrade hash users (codes "o1") upgrade (codes "n1") (codes "n2") ≡ raised))
    ⊎ ((field : Str) × (upgrade.authorization ≡ some field)
        × IsUpgraded hash users (codes "o1") upgrade (codes "n1") (codes "n2") field)
on_upgrade_cases_example =
    on_upgrade_cases hash users (codes "o1") upgrade (codes "n1") (codes "n2")

-- Addresses as texts.
abbrev nonces : Nonces Str str_eq
nonces = (codes "10.0.0.1", codes "n1") ∷ []

on_accept-IsAccepted_example :
    IsAccepted Str str_eq str_eq_iff (connected (some (codes "10.0.0.2"))) (codes "n2") nonces
on_accept-IsAccepted_example =
    on_accept-IsAccepted Str str_eq str_eq_iff (connected (some (codes "10.0.0.2"))) (codes "n2")
      nonces
