-- ===== src/Mime/Extensions.antt =====
-- Which part of a path decides its type.
use book_filer_module_http.Prelude.{ℕ, ◌≡◌, refl, Bool, false, [], ◌∷◌, ◌++◌, ◌==◌, Text, All}
use book_filer_module_http.Mime.{extension, mime_type}

abbrev pub NoDot : ℕ → Type 0
NoDot c = (c == b'.') ≡ false

extension-NoDot : (t : Text) → All NoDot t → extension t ≡ []
unfolding extension
extension-NoDot [] h = refl
extension-NoDot (c ∷ cs) (n, h) = rw (extension-NoDot cs h, extension) (rw n)

extension-dot : (stem ext : Text) → All NoDot ext → extension (stem ++ b'.' ∷ ext) ≡ b'.' ∷ ext
unfolding extension
extension-dot [] ext h = rw (extension-NoDot ext h, extension)
extension-dot (c ∷ stem) ext h = rw (extension-dot stem ext h, extension)

-- The type of a path is that of its last dot and what follows: the directories and the stem, and any
-- dots in them, do not change it.
mime_type-extension :
    (iequals : Text → Text → Bool) (stem ext : Text)
    → All NoDot ext
    → mime_type iequals (stem ++ b'.' ∷ ext) ≡ mime_type iequals (b'.' ∷ ext)
unfolding mime_type
mime_type-extension iequals stem ext h = rw (extension-dot stem ext h, extension-dot [] ext h)
