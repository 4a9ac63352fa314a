-- ===== src/Lib.antt =====
-- tasked serves files and user processes over HTTP. Its settings come from files that keyval/
-- reads and from flags; requests of a user are handed to a process that runs as this user, which
-- htproc/ starts, keeps, and stops.
--
-- The settings parser (keyval/keyval.go):
--
--   - Keyval/Parser.antt is parseFile, a machine with one function for each case of its
--     switch. The pointer e is an option, and a write through nil is the outcome `panics`. The
--     runes are the input, with the error that ends it.
--   - Keyval/Printer.antt describes the format independently of the parser, as a printer with
--     a free choice of quotes, blanks and comments. Keyval/Quoting.antt, Lines.antt and
--     RoundTrip.antt lead to the round trip.
--   - Keyval/Panic.antt and Keyval/Comments.antt are about backslashes in comments.
--   - Keyval/Include.antt is readFile, expandIncludes and Parse. The files are a function from
--     names, which does not change during a run. The fuel of expand_includes bounds the depth
--     of the recursion; Keyval/Fuel.antt shows how much is enough. Keyval/Expansion.antt has
--     the relation that an expansion satisfies.
--
-- Authentication (htauth/htauth.go, share/http.go, auth/auth.go):
--
--   - Share/Filters.antt has the filters of share/http.go and their cascade,
--     Share/Reading.antt its MaxReader.
--   - Share/Query.antt is GetQryValuesCmd, and Htauth/Request.antt what the filter reads of a
--     request. base64, mime and the interface Auth are records of functions; an error is none,
--     since no caller tells errors apart.
--   - Auth/Varint.antt and Auth/Token.antt are the tokens of auth/auth.go, with the cipher as
--     a function of which the theorems assume that it undoes itself, as the counter mode does;
--     Auth/Token/Session.antt says what a token holds and how long it is good. Its times are
--     below 2 ^ 55 seconds, which is what fits in 8 bytes.
--   - Htauth/Creds.antt is getCreds with its sources of credentials, Htauth/Filter.antt
--     checkCreds, Filter and ServeHTTP, with the reply as a record. Htauth/Filter/Vouched.antt
--     says who gets through.
--
-- The options (options.go):
--
--   - Options/Parse.antt has the keys, the options, the defaults, the free arguments and
--     parseOptions; `configure` is the end of readOptions. strconv.ParseInt is a parameter.
--     Options/Parse/Precedence.antt and Refusal.antt have which settings count, and which are
--     refused.
--   - Options/Reading.antt is readOptions with parseFlags and getIncludes, on a record of the
--     system: the arguments, what the flag package makes of them, the environment and the
--     files. Its fuel is that of the settings parser. Options/Reading/Flags.antt has that
--     flags count before files.
--
-- The process store (htproc/procStore.go):
--
--   - Htproc/Store.antt has procStore's four maps and its operations. Times are natural
--     numbers of nanoseconds, so that a difference stops at zero, which no comparison of the
--     source can tell from a negative one. A runner is a number, and the list `closed` records
--     the calls of its method close. Maps are association lists, which fixes the order of a
--     range loop.
--   - Htproc/Store/Valid.antt is the invariant; Evict, Oldest, Idle, Requests, Answers,
--     Failures and Bans have what the operations do.
--   - Htproc/Run.antt is run and closeAll, as a machine on events: what comes from a channel,
--     in any order. Htproc/Run/ has what holds of all runs.
--
-- A process and its requests (htproc/proc.go, htproc/htproc.go):
--
--   - Htproc/Filter.antt is Filter of htproc/htproc.go with getCreate, in rounds that find the
--     store as the environment has left it.
--   - Htproc/Output.antt is filterLines and waitOutput, on what ReadSlice gives.
--     Htproc/Output/Filtering.antt has what is let through.
--   - Htproc/Proc.antt is run with signalWait, waitExit and outputError, as a machine on
--     events in any order, and serve on the states of its channels. Htproc/Proc/Ready.antt,
--     Ending.antt and Serving.antt have what holds of them.
--   - Htproc/Proxy.antt is serve of htproc/proxy.go, on what the HTTP client gives.
--
-- Files (htfile/htfile.go):
--
--   - Htfile/Paths.antt has cleanDirPath, pathIntersect and getPath, on path.Clean and
--     path.Join, which are modelled by the words between the slashes.
--     Htfile/Paths/Cleaning.antt is about clean paths, Containment.antt and Roots.antt about
--     what getPath gives.
--
--   - Htfile/Io.antt has the calls of the system that the handlers make, and their answers; a
--     handler is a tree of calls with a branch for each answer, so that what is shown holds
--     whatever the system answers. Io/Run.antt runs a handler in a system with a state, and
--     Io/Confined.antt has contracts: what holds of each call, as long as something holds of
--     the answers.
--   - Htfile/Files.antt is searchFiles, copyTree and detectContentType, Properties.antt
--     toPropertyMap and the query of a search, Members.antt and Changes.antt modpropsf,
--     Handlers.antt and Serve.antt the other handlers and ServeHTTP. Request.antt has what
--     they read and answer. The fuel of search_files and copy_tree bounds their recursions.
--   - Htfile/Paths/Below.antt has which paths path.Join and path.Dir give from those that
--     getPath gives. Confinement.antt and Confinement/ are about the paths in the calls,
--     Termination.antt and Termination/ about the end of searches and copies: the fuel is
--     enough where no more than so many files lie below a directory. Putting.antt and
--     Ownership.antt are about putf and modpropsf.
--   - Htfile/Copying.antt describes trees of files, a disk as a system with laws for the calls
--     that copy, by what is at their paths, and what a copy is to leave on it.
--     Copying/Places.antt is about the paths of a copy, Runs.antt and Exact.antt have what the
--     calls of copyTree do on a disk, Requests.antt the requests to copy.
--   - Share/Errors.antt is CheckOsError and HandleErrno of share/http.go, Share/Json.antt its
--     ReadJsonRequest and WriteJsonResponse, and Share/Fs.antt is share/fs.go.
--
-- The server (serve.go, listen.go, pam.go):
--
--   - Server/Handler.antt is createHandler, the cascade of the models of the filters of
--     htauth/ and htproc/ and of the handler for files; Server/Routes.antt has who answers a
--     request.
--   - Server/Start.antt is runasUser and serve, as the list of the calls that were tried, and
--     run on what ends it.
--   - Server/Keys.antt is mkauth of pam.go with genAes of crypt.go and the keys of New of
--     auth/auth.go; Options/Fields.antt is fieldOrFile of options.go.
--   - Listen/Address.antt is parseAddress and getListenerParams of listen.go; the regular
--     expression is written out, as the functions that take its parts off the text.
--     Listen/Ports.antt has what they give.
--   - Listen/Tls.antt is listen and listenTls with selfCert of crypt.go; the sockets and the
--     cryptography are a record of functions, whose calls that write files are kept in order.
--     Listen/Pair.antt and Secure.antt are about listening with TLS.
--
-- Base.antt and Base/ hold the names, tests and lemmas that the parts share. The Examples of
-- each part run the code on concrete inputs.
--
-- Not modelled: socket paths and dial timeouts; the failure of writes to memory; logging. Nor
-- are the HTTP client, the flag package, the sockets and the handshakes of TLS, PAM and the
-- ciphers, and the text of JSON, which are the work of libraries.
pub mod Base
pub mod Keyval
pub mod Htproc
pub mod Share
pub mod Htauth
pub mod Htfile
pub mod Auth
pub mod Options
pub mod Listen
pub mod Server
