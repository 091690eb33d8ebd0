-- ===== src/Lib.antt =====
-- BookFiler Module HTTP: an HTTPS server and client with routes, cookies, URL queries, certificates
-- and templates, in C++ over Boost.Beast, Boost.Asio, OpenSSL and RapidJSON. This library models the
-- code of src/core, src/Module.cpp and src/SshModule.cpp, and the programs of src_example that use it.
--
-- A listener accepts sockets and starts a connection for each. A connection reads requests in a loop,
-- tests the method and the target, parses the request, lets the routes answer it, and writes the
-- response. The routes keep a signal of handlers for each path. A client makes one exchange at a time.
-- The certificate manager makes and loads what the server's SSL context takes.
--
--   Uri           src/core/Util.cpp                  uriEncode, uriDecode
--   StdMap        std::map, as a sorted list of entries
--   Query         src/core/UrlQuery.cpp              the query map, its flattening and parsing
--   Url           src/core/Url.cpp                   a boost::url with a query beside it
--   Variant       include/BookFiler-Module-HTTP/Interface.hpp   the option values
--   Decimal       std::to_string and std::stoi
--   Cookie        src/core/RequestCookie.cpp         cookies, and the header that sets one
--   Message, Env  what the code takes from Boost.Beast and other libraries, as records
--   Request       src/core/Request.cpp, src/core/RequestUserAgent.cpp
--   Response      src/core/Response.cpp
--   Route         src/core/ServerRoute.cpp, src/core/ServerUtil.hpp; its tables in Route/Table, and
--                 the dispatches of several threads in Route/Shared
--   Connection    src/core/ServerConnection.cpp      the loop of one connection
--   Mime          src/core/ServerUtil.cpp            mime_type
--   Json          src/core/json.cpp                  reading members of documents, and printing them
--   Listener      src/core/ServerListener.cpp
--   Server        src/core/Server.cpp, src/core/ServerState.hpp
--   Client        src/core/Client.cpp
--   Certificate   src/core/certificate.cpp, src/core/certificateManager.cpp; the store of
--                 Windows (src/core/certificateManagerNativeWin.cpp) in Certificate/Store
--   Template      src/core/Template.cpp
--   Module        src/Module.cpp                    settings, factories, wait and notify;
--                 loadModule (include/BookFilerModuleHttpLoader.hpp) in Module/Loader
--   Ssh           src/SshModule.cpp                 the bookkeeping of the SSH module
--   Examples      src_example: the servers in Examples/Programs with their pages, the program that
--                 logs in (oauth2-google) in Examples/Oauth, http-client-json in Examples/JsonClient
--   Prelude       shared names: texts as lists of bytes, tests, the outcome of a call
--   Tests         libraries that meet the assumptions, and runs of the theorems
--
-- A function of the code has its name in lower case with underscores (getQuery with a key is
-- get_query_key); a member function takes the object and gives the changed one. A call ends with a
-- value, with an exception, or in undefined behaviour (Outcome); -1 and 0 are failure and success.
-- Libraries outside the repository are records of operations with the laws that their documentation
-- gives (Splitter, UrlLib, RequestLib, ResponseLib, SignalLib, JsonLib, OpenSsl and others). The
-- network's answers are arguments: a connection takes one round for each read, a listener one answer
-- for each accept, so loops are structural recursion and no fuel is needed; a list that is used up
-- means that the code waits. OpenSSL is modelled by the log of the calls made, with objects numbered
-- in the order in which they are allocated. An int that is read from a document is unbounded until
-- the code computes with it: the port is taken modulo 2^16, and the validity of a certificate must
-- not overflow 32 bits. Where a call throws or is undefined, what it has changed before is not kept.
--
-- Not modelled: a notify of the module in the middle of a wait, printing and logging, the abstract
-- interfaces, the loader of the SSH module, which is a copy of that of the HTTP module, and the copies
-- of other projects' libraries.
pub mod Prelude
pub mod Uri
pub mod StdMap
pub mod Query
pub mod Variant
pub mod Url
pub mod Decimal
pub mod Cookie
pub mod Message
pub mod Env
pub mod Examples
pub mod Request
pub mod Response
pub mod Route
pub mod Connection
pub mod Json
pub mod Mime
pub mod Listener
pub mod Template
pub mod Server
pub mod Client
pub mod Module
pub mod Ssh
pub mod Certificate
pub mod Tests
