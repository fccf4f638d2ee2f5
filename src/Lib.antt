-- ===== src/Lib.antt =====
-- The nawa web framework.
--
-- Session (src/session/Session.cpp) keeps a global table from session IDs to shared session
-- objects. Session/Store models the table and the objects behind its pointers, Session/Start
-- `Session::start` with an ID, Session/Cookies the overload that answers with a cookie, and
-- Session/Values the operations on values and `invalidate`. Each call of `time` in one call of a
-- function gives the same `now`, a locked section is one step, and random numbers and SHA-1 come
-- from the record World. The loop that looks for an unused ID runs on fuel; how much is enough is a
-- hypothesis on the draws.
--
-- Connection (src/connection) holds the request, the configuration, the session and the response.
-- Connection/State has its fields, Connection/Response its operations up to `flushResponse` and the
-- raw HTTP text of a flush, Connection/Status the status line, and Session/Autostart the
-- constructor, which may start a session. Connection/Stream, Connection/Headers and
-- Connection/Cookies have laws.
--
-- Filter (src/filter, and `applyFilters` and `sendFile` of src/connection/Connection.cpp) decides
-- which requests reach the application: Filter/Types has the filters, Filter/Matching their
-- conditions, Filter/SendFile the answer with a file, and Filter/Apply the three stages. It uses
-- sessions and responses, the request's environment, and the string functions of Util.
--
-- Request (src/request) models environment, GET, POST and cookie variables, Config (src/config) the
-- configuration. Of src/util, Util/Strings has the string functions, Util/Regex the replacement by
-- a callback, Util/Encoding the URL and quoted-printable encodings, Util/Encoding/Words encoded words
-- and the labels of a domain, Util/Queries the parsers of query strings, headers and cookies,
-- Util/MimeMultipart the multipart parser, and Util/Time, Util/ContentType and Util/ErrorPage what
-- they name. A regular expression is the function that matches it at the head of a text.
--
-- Handler (src/RequestHandler) is what a server does with a request: Handler has the data and
-- `handleRequest`, Handler/Serve the way from the connection through the filters and the application
-- to the flush, Handler/Environment the variables of both handlers, Handler/Body the body of a POST
-- request to the HTTP handler and Handler/Http the rest of that handler, Handler/Fastcgi the adapter
-- of the FastCGI handler, Handler/Sockets the constructors, and Handler/Lifecycle the states between
-- `start` and `join`, as phases that both handlers refine through one interface. An application is a
-- function of sessions and connection.
--
-- Nawarun (src/nawarun/nawarun.cpp and src/AppInit.cpp) is the program: Nawarun/CommandLine,
-- Nawarun/Settings, Nawarun/App, Nawarun/Privileges, and Nawarun/Run, where `run` gives the events
-- that others see and the exit code. It makes a request handler, and sets up Logging
-- (src/logging/Log.cpp). Mail (src/mail) has addresses, emails with their text, and the mailer, whose
-- queue points to emails that are shared. Util/Replace has the replacement of texts that emails use.
--
-- Hashing has the digests and password functions of src/util/crypto.cpp with the table of hash types
-- (Hashing/Crypto), and the engines of src/hashing: Hashing/Argon2 and Hashing/Bcrypt. The parts
-- above take the digest that they call as a parameter.
--
-- Strings are lists of bytes as natural numbers. Numbers of w bits wrap around as written; a time_t
-- is the pattern of its 64 bits. A hash map is a list of pairs, in an order that stands for the
-- unspecified one; for the query of a request that order is a parameter. A result is a value or an
-- exception; undefined behaviour and a loop that has used up its fuel are errors of their own.
-- The loops of `splitString`, `regexReplaceCallback` and `MimeMultipart::parse` have the length of the
-- text as fuel, since each round consumes a byte.
--
-- Parameters are gmtime, the file system, base64, the coder of punycode, the digests of OpenSSL,
-- libargon2, libs/libbcrypt, the random device, ini_parse, what the servers of cpp-netlib and
-- fastcgi++ read and whether they listen and start, the loader of shared libraries, the accounts and
-- system calls, libcurl, the clock, random numbers, and the numbers of type double. `replace_key` has
-- the length of the text as fuel, since each round consumes a byte; an empty key, which the code does
-- not come to an end with, is an error.
--
-- Not modelled are HTML entities, which rest on conversions of the standard library, the texts of
-- help and version, the installation of signal handlers, and the vendored libraries under libs.
-- Interleavings of threads inside one call are not modelled.
pub mod Common
pub mod Util
pub mod Config
pub mod Request
pub mod Connection
pub mod Session
pub mod Filter
pub mod Handler
pub mod Hashing
pub mod Logging
pub mod Mail
pub mod Nawarun
pub mod Tests
