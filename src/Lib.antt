-- ===== src/Lib.antt =====
-- Trakx, a BitTorrent tracker for HTTP and UDP.
--
-- The program. Clients announce themselves over UDP (tracker/udp, with its wire formats in
-- tracker/udp/protocol) or HTTP (tracker/http, which answers in the format of bencoding/). Both
-- trackers keep their peers in one database (tracker/storage, in memory in tracker/storage/map),
-- which counts its peers in global counters (tracker/stats) and is trimmed and saved now and then.
-- controller/ starts and stops the process, config/ reads its settings.
--
-- The files.
--   Common: lists, bytes, Go's results, integers on the wire, and Go maps as association lists.
--   Bencoding: bencoding/dictionary.go and encoding.go. `Dictionary` has a function for each
--     method, `Any` the method `Any`; `Value` is the format by itself, with a reader; `Writer`
--     holds a run of the methods against it.
--   Udp.Protocol: tracker/udp/protocol, a file for each file of the package, with `marshall` and
--     `unmarshall` for the methods of the request and `marshall_resp` and `unmarshall_resp` for
--     those of the response.
--   Udp.ConnDb: tracker/udp/conndb.go, with the binary form of the connections and, in `Files`, their
--     file and `Init` and `WriteConns` of tracker/udp/udptracker.go.
--   Udp.Tracker: the rest of tracker/udp. `Handlers` has the methods connect, announce, scrape,
--     newClientError and newServerError, `Process` has `process` and the guard of `Serve`;
--     `Served`, `Session` and `Announced` hold what is shown of them. `Udp.ConnDb.Accepts` holds the
--     connections against a list of the calls that were made.
--   Http: tracker/http. `Unescape` and `Parser` are parser.go, whose slices panic out of their bounds
--     (those of the worker too; the bound is the length, where Go's is the capacity), `Reply` is wrappers.go and error.go,
--     `Announce` and `Scrape` are the handlers, `Worker` is what the worker does with one request that
--     it has read, in the build without the tag heroku; `Forwarded` is the function of the other build.
--     `Http.Unescape.percent_decode` is percent-decoding by itself; `Served` and `Answers` hold what is
--     shown of a request.
--   Config: config/. `Embed` makes the cache of the embedded files of embed.go, `Cached` holds what is
--     in it, `Pages` what a page is; `Settings` is config.go, `Parsed` holds what is shown of `Parse`.
--   Controller: controller/. `PidFile` is pidfile.go, `Service` is controller.go over the system calls,
--     `Waits` and `Starts` hold what is shown of Stop and Start; `Command` is cli_entry.go, and
--     `Restarts` holds what is shown of its command restart.
--   Strconv: `Atoi` of the standard library.
--   Stats: tracker/stats; the build tag `fast` is a Boolean argument.
--   Storage.Types, Storage.Memory, Storage.Trim: tracker/storage/types.go, and `Save`, `Drop`,
--     `HashStats`, `Hashes`, `trim` and `SyncExpvars` of tracker/storage/map.
--   Storage.Map: the calls that change the database, against a table of peers (`Refines`).
--   Storage.Locks: `Save`, `Drop` and a round of `trim` once more, as threads over a heap
--     (`Common.Heap`) that take turns from one lock to the next, with the pool of the peers. `Invariant`, `Moves`, `Allocated`,
--     `Alone`, `Pointed`, `Sole`, `Lost` and `Stale` hold what is shown.
--   Storage.Sound: a valid database in step with the counters, the invariant of both trackers.
--   Storage.PeerList, Storage.PeerDicts: `PeerListBytes` with the buffers of pools/, and `PeerList`.
--   Storage.Backup, Storage.Drivers: the three backups, the drivers, `Open`, and the driver gomap.
--   Trackers: both trackers over one database, for any order of datagrams, requests, trims and rounds
--     of publishing (`Runs`; `Publish` is tracker/stats/publish.go), what `Run` of tracker/tracker.go
--     starts (`Launch`, with `Load` of config/load.go, and `Launched`), and both trackers over the signals that save or stop them and the next start (`Signals`, `Restart`).
--   Storage.Binary: `encodeBinary` and `decodeBinary` of tracker/storage/map/encode_binary.go.
--
-- How it is modelled. A byte is a number below 256 and a byte slice a list of them. A machine
-- integer is its bit pattern, with the wrap written out; times are `int64` patterns. A Go map is
-- an association list, and the order of the list is the order in which `range` yields the entries:
-- a theorem for every list is one for every order. A shared pointer is written back where the map
-- holds it. The clock, random numbers and what a pool hands out are arguments. A handler is one
-- step, save in Storage.Locks, where a step goes from one lock to the next and a schedule says whose turn
-- it is. Loops recur on
-- their lists; printing a number in decimal divides at most once more than the number itself,
-- and the reader of bencoded values takes the size of the value as fuel, which is shown to suffice.
-- The endless loop that reads a backup takes one more than the number of its bytes, which is shown
-- to suffice as well.
--
-- The buffer of a worker is what it holds before each read, an argument: the requests before have put
-- it there and changed it in place.
--
-- Parameters. base64 decoding, netip.ParseAddr, Addr.String, the host of a connection, the files that
-- are embedded and the page of expvar are arguments of the HTTP tracker, with no assumption on them.
-- `Common.Files.File` is a file with the functions of the package os and what they promise,
-- `Controller.Service.System` the system calls of the controller, `Storage.Backup.SqlDb` the queries,
-- `Udp.ConnDb.Files.Gob` the package gob, and `Config.Settings.Environment` the variables, the home
-- directory and strings.ToLower.
-- A wait of the controller takes as fuel the number of the tests of its condition: what is shown of it
-- gives a number that is enough, or says that none is.
--
-- Not modelled: sockets, deadlines, logging, timers, the pprof server, the routing of the information
-- server and gob, which are the standard library, the reading of the settings, which is the library
-- fig, and the panic of Int63n on an announce fuzz of less than -2^31 seconds whose low half is positive.
pub mod Bencoding
pub mod Common
pub mod Config
pub mod Controller
pub mod Http
pub mod Stats
pub mod Storage
pub mod Strconv
pub mod Trackers
pub mod Udp
