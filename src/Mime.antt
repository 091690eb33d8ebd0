-- ===== src/Mime.antt =====
-- `mime_type` of src/core/ServerUtil.cpp.
pub mod Extensions
use book_filer_module_http.Prelude.{
  ℕ, Bool, Option, none, some, List, [], ◌∷◌, ◌==◌, if◌then◌else◌, Text, codes,
}

-- `path.rfind(".")` with `path.substr(pos)`: the last dot, and what follows it.
unfoldable pub extension : Text → Text
extension [] = []
extension (c ∷ cs) =
    let later = extension cs in
    elim later [ d ∷ ds ↦ d ∷ ds | [] ↦ if c == b'.' then c ∷ cs else [] ]

-- The comparisons, in their order.
abbrev pub mime_table : List (Text × Text)
mime_table =
    (codes ".htm", codes "text/html")
    ∷ (codes ".html", codes "text/html")
    ∷ (codes ".php", codes "text/html")
    ∷ (codes ".css", codes "text/css")
    ∷ (codes ".txt", codes "text/plain")
    ∷ (codes ".js", codes "application/javascript")
    ∷ (codes ".json", codes "application/json")
    ∷ (codes ".xml", codes "application/xml")
    ∷ (codes ".swf", codes "application/x-shockwave-flash")
    ∷ (codes ".flv", codes "video/x-flv")
    ∷ (codes ".png", codes "image/png")
    ∷ (codes ".jpe", codes "image/jpeg")
    ∷ (codes ".jpeg", codes "image/jpeg")
    ∷ (codes ".jpg", codes "image/jpeg")
    ∷ (codes ".gif", codes "image/gif")
    ∷ (codes ".bmp", codes "image/bmp")
    ∷ (codes ".ico", codes "image/vnd.microsoft.icon")
    ∷ (codes ".tiff", codes "image/tiff")
    ∷ (codes ".tif", codes "image/tiff")
    ∷ (codes ".svg", codes "image/svg+xml")
    ∷ (codes ".svgz", codes "image/svg+xml")
    ∷ []

-- `beast::iequals` is a parameter: equality without regard to the case of letters.
unfoldable pub lookup_mime : (Text → Text → Bool) → Text → List (Text × Text) → Text
lookup_mime iequals ext [] = codes "application/text"
lookup_mime iequals ext ((e, m) ∷ table) =
    if iequals ext e then m else lookup_mime iequals ext table

unfoldable pub mime_type : (Text → Text → Bool) → Text → Text
unfolding lookup_mime extension
mime_type iequals path = lookup_mime iequals (extension path) mime_table
