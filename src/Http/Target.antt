-- ===== src/Http/Target.antt =====
-- src/http_session.cpp: the functions on request targets and paths.
use gate_control.Base.{
  ℕ, map, suc, Bool, true, false, ◌&&◌, ◌||◌, List, [], ◌∷◌, ◌++◌, none, some, length, drop, ◌==◌,
  if◌then◌else◌,
}
use gate_control.Base.Text.{Str, codes, starts_with, ends_with, rfind_char, iequals}

abbrev pub indexable_endpoints : List Str
indexable_endpoints = codes "/" ∷ codes "/view" ∷ codes "/control" ∷ []

unfoldable pub is_target_single_level : Str → Str → Bool
is_target_single_level target endpoint_name =
    starts_with target (b'/' ∷ endpoint_name)
    && (ends_with target (endpoint_name ++ (b'/' ∷ [])) || ends_with target endpoint_name)

-- `target[n] == '/'`
abbrev slash_first : Str → Bool
slash_first [] = false
slash_first (c ∷ s) = c == b'/'

unfoldable pub target_starts_with_segment : Str → Str → Bool
target_starts_with_segment target endpoint_name =
    if starts_with target (b'/' ∷ endpoint_name)
    then if suc (length endpoint_name) == length target
      then true
      else slash_first (drop (suc (length endpoint_name)) target)
    else false

-- The base without a separator at its end.
unfoldable pub strip_separator : ℕ → Str → Str
strip_separator separator [] = []
strip_separator separator (c ∷ []) = if c == separator then [] else c ∷ []
strip_separator separator (c ∷ d ∷ s) = c ∷ strip_separator separator (d ∷ s)

abbrev pub windows_separator : ℕ → ℕ
windows_separator c = if c == b'/' then b'\\' else c

-- The argument says whether BOOST_MSVC is defined.
unfoldable pub path_cat : Bool → Str → Str → Str
unfolding strip_separator
path_cat is_msvc [] path = path
path_cat true (c ∷ base) path = map windows_separator (strip_separator b'\\' (c ∷ base) ++ path)
path_cat false (c ∷ base) path = strip_separator b'/' (c ∷ base) ++ path

-- The tests in the order of the source.
abbrev pub mime_types : List (Str × Str)
mime_types =
    (codes ".htm", codes "text/html")
    ∷ (codes ".html", codes "text/html")
    ∷ (codes ".php", codes "text/html")
    ∷ (codes ".css", codes "text/css")
    ∷ (codes ".txt", codes "text/plain")
    ∷ (codes ".js", codes "application/javascript")
    ∷ (codes ".json", codes "application/json")
    ∷ (codes ".xml", codes "application/xml")
    ∷ (codes ".swf", codes "application/x-shockwave-flash")
    ∷ (codes ".flv", codes "video/x-flv")
    ∷ (codes ".png", codes "image/png")
    ∷ (codes ".jpe", codes "image/jpeg")
    ∷ (codes ".jpeg", codes "image/jpeg")
    ∷ (codes ".jpg", codes "image/jpeg")
    ∷ (codes ".gif", codes "image/gif")
    ∷ (codes ".bmp", codes "image/bmp")
    ∷ (codes ".ico", codes "image/vnd.microsoft.icon")
    ∷ (codes ".tiff", codes "image/tiff")
    ∷ (codes ".tif", codes "image/tiff")
    ∷ (codes ".svg", codes "image/svg+xml")
    ∷ (codes ".svgz", codes "image/svg+xml")
    ∷ []

-- The part of the path from its last dot on.
unfoldable pub extension : Str → Str
extension path = elim (rfind_char b'.' path) [ none ↦ [] | some i ↦ drop i path ]

unfoldable pub mime_of : Str → List (Str × Str) → Str
mime_of ext [] = codes "application/text"
mime_of ext ((e, type) ∷ ts) = if iequals ext e then type else mime_of ext ts

unfoldable pub mime_type : Str → Str
mime_type path = mime_of (extension path) mime_types
