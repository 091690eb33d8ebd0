-- ===== src/Env.antt =====
-- What the HTTP server and client take from libraries outside the repository's own code, and the
-- state of the application whose handlers the server calls.
use book_filer_module_http.Prelude.{Text}
use book_filer_module_http.Query.{Splitter}
use book_filer_module_http.Url.{UrlLib}
use book_filer_module_http.Message.{RequestLib, ResponseLib}

pub record Env : Type 1 where
  pub splitter : Splitter
  pub urls : UrlLib
  pub requests : RequestLib
  pub responses : ResponseLib
  -- `BOOST_BEAST_VERSION_STRING`.
  pub server_version : Text
  -- The browser family that `uap_cpp::UserAgentParser` finds in a user agent.
  pub browser_family : Text → Text
  pub App : Type 0
