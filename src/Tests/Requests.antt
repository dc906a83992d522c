-- ===== src/Tests/Requests.antt =====
-- Requests at a server with one user and one file.
use gate_control.Base.{[], none, some, ◌≡◌, ◌⊎◌, inl, refl, true, false}
use gate_control.Base.Text.{Str, codes, starts_with, has_sub}
use gate_control.Base.Outcome.{ok, raised, ◌>>=◌}
use gate_control.AuthTable.Types.{view}
use gate_control.Auth.Endpoint.{get_endpoint_permissions, permissions_within, scan_endpoints}
use gate_control.Auth.Digest.{get}
use gate_control.Http.Response.{Request, Response, bad_request}
use gate_control.Http.Target.{path_cat}
use gate_control.Http.Handler.{
  Opened, opened, Server, is_acceptable, serve_file, file_path, respond, handle_request,
}
use gate_control.Http.Handler.Access.{IsPermitted, Refuses, handle_request-protected}
use gate_control.Http.Handler.Errors.{IsTrap, IsUnlistable, handle_request_cases}
use gate_control.Http.Handler.Routes.{DumpEnds}
use gate_control.Http.Handler.Bypass.{handle_request-slashes}
use gate_control.Tests.Login.{hash, users}
use gate_control.Tests.ToyJson.{config_json}

abbrev files : Str → Opened
files path = opened 10

abbrev server : Server config_json
server = record {
  is_msvc = false;
  doc_root = codes "./client";
  auth_table = users;
  opaque = codes "o1";
  config = record { maps = [] };
}

abbrev asks_for : Str → Request
asks_for target = record {
  method = get;
  target = target;
  version = 11;
  keep_alive = true;
  upgrade = false;
  authorization = none;
}

view_protected : get_endpoint_permissions (codes "/view") ≡ some view
unfolding get_endpoint_permissions permissions_within scan_endpoints starts_with
view_protected = refl

handle_request-protected_example :
    ((is_acceptable (asks_for (codes "/view")) ≡ false)
      × ((res : Response) × (handle_request config_json hash files server
              (asks_for (codes "/view"))
              (codes "n1")
              (codes "n2")
            ≡ ok (res, codes "n1"))
          × (res.status ≡ bad_request)))
    ⊎ (((r : Response × Str) × (handle_request config_json hash files server
              (asks_for (codes "/view"))
              (codes "n1")
              (codes "n2")
            ≡ ok r)
          × Refuses config_json hash files server (codes "n1") (codes "n2") r)
        ⊎ (IsPermitted config_json hash files server view (asks_for (codes "/view")) (codes "n1")
            × (handle_request config_json hash files server
                  (asks_for (codes "/view"))
                  (codes "n1")
                  (codes "n2")
                ≡ (respond config_json hash files server (asks_for (codes "/view")) (codes "n1")
                    >>= λ res. ok (res, codes "n1")))))
handle_request-protected_example =
    handle_request-protected config_json hash files server view (asks_for (codes "/view"))
      (codes "n1") (codes "n2") view_protected

dump_ends : DumpEnds config_json hash files server
unfolding config_json
dump_ends v = inl ([], refl)

handle_request_cases_example :
    ((IsTrap config_json hash files server (asks_for (codes "/config_config")) (codes "n1")
        ⊎ IsUnlistable config_json hash files server
            (asks_for (codes "/config_config"))
            (codes "n1"))
      × (handle_request config_json hash files server
            (asks_for (codes "/config_config"))
            (codes "n1")
            (codes "n2")
          ≡ raised))
    ⊎ ((r : Response × Str) × (handle_request config_json hash files server
            (asks_for (codes "/config_config"))
            (codes "n1")
            (codes "n2")
          ≡ ok r))
handle_request_cases_example =
    handle_request_cases config_json hash files server dump_ends (asks_for (codes "/config_config"))
      (codes "n1") (codes "n2")

handle_request-slashes_example :
    handle_request config_json hash files server
      (asks_for (codes "//control/index.html"))
      (codes "n1")
      (codes "n2")
    ≡ ok (
      serve_file config_json hash files server
          (file_path config_json hash files server (codes "//control/index.html"))
          (asks_for (codes "//control/index.html")),
      codes "n1",
    )
handle_request-slashes_example =
    handle_request-slashes config_json hash files server (asks_for (codes "//control/index.html"))
      (codes "n1") (codes "n2") (codes "control/index.html") refl acceptable
  where
    acceptable : is_acceptable (asks_for (codes "//control/index.html")) ≡ true
    acceptable = unfold has_sub in refl

abbrev page : Str
page = codes "//view/"

abbrev page_path : Str
page_path = file_path config_json hash files server page

-- The separators of Windows, and of the others.
windows_path : path_cat true (codes "client\\") (codes "/view/a.js") ≡ codes "client\\view\\a.js"
unfolding path_cat
windows_path = refl

unix_path : path_cat false (codes "client/") (codes "/view/a.js") ≡ codes "client/view/a.js"
unfolding path_cat
unix_path = refl
