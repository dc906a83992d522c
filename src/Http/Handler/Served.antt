-- ===== src/Http/Handler/Served.antt =====
-- Which files a response can carry.
use gate_control.Base.{ℕ, false, [], ◌++◌, some, drop, ◌≡◌, ◌⊎◌}
use gate_control.Base.Text.{Str, codes}
use gate_control.Json.{JsonLib}
use gate_control.Config.{MapEntry}
use gate_control.Config.Visible.{FirstWith}
use gate_control.Http.Target.{path_cat, mime_type}
use gate_control.Http.Response.{Request, Response, file, success, fixed}
use gate_control.Http.Handler.{Opened, opened, Server, is_head}

module _ (J : JsonLib) (H : Str → Str) (open_file : Str → Opened) (s : Server J) where
  -- A path that a target stands for: the document root with the target, and the index of a
  -- directory; or the image of the map that it names.
  abbrev pub IsPathOf : Str → Str → Type 0
  IsPathOf target path =
      ((tail : Str) × (path ≡ path_cat s.is_msvc s.doc_root target ++ tail)
        × ((tail ≡ []) ⊎ ((tail ≡ codes "index.html") ⊎ (tail ≡ codes "/index.html"))))
      ⊎ ((m : MapEntry J) × FirstWith J (drop 6 target) s.config.maps m × (path ≡ m.map_image_path))

  -- The response carries a file that was opened, whole and with its type, for a GET request.
  abbrev pub IsFileResponse : Request → Response → Str → Type 0
  IsFileResponse req res path =
      IsPathOf req.target path
      × (is_head req.method ≡ false)
      × ((size : ℕ) × (open_file path ≡ opened size) × (res.length ≡ fixed size))
      × (res.status ≡ success)
      × (res.content_type ≡ some (mime_type path))

  abbrev Serves : Request → Response → Type 0
  Serves req res = (path : Str) → res.body ≡ file path → IsFileResponse req res path
