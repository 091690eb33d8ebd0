-- ===== src/Response.antt =====
-- `ResponseImpl` of src/core/Response.hpp and src/core/Response.cpp.
use book_filer_module_http.Prelude.{Bool, true, false, Option, none, some, List, [], Text}
use book_filer_module_http.Prelude.Int.{ℤ, success}
use book_filer_module_http.Variant.{Variant}
use book_filer_module_http.Message.{ResponseLib}

module _ (L : ResponseLib) where
  -- The map of cookies is never filled, and is left out.
  pub record ResponseImpl : Type 0 where
    pub response_beast : Option L.Message
    pub writable_ended_flag : Bool
    pub body_str : Text

  -- `ResponseImpl()`.
  abbrev pub new_response : ResponseImpl
  new_response = record { response_beast = none; writable_ended_flag = false; body_str = [] }

  unfoldable pub set_response : L.Message → ResponseImpl → ResponseImpl
  set_response m r = record r { response_beast = some m }

  unfoldable pub end : Text → ResponseImpl → ResponseImpl × ℤ
  end body r = (record r { body_str = body; writable_ended_flag = true }, success)

  unfoldable pub writable_ended : ResponseImpl → Bool
  writable_ended r = r.writable_ended_flag

  unfoldable pub body : ResponseImpl → Text
  body r = r.body_str

  -- Nothing is moved to the message.
  unfoldable pub parse_response : ResponseImpl → ResponseImpl × ℤ
  parse_response r = (r, success)

  -- The call that would keep the cookie is commented out.
  unfoldable pub set_cookie : Text → Text → List (Text × Variant) → ResponseImpl → ResponseImpl × ℤ
  set_cookie name value options r = (r, success)
