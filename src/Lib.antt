-- ===== src/Lib.antt =====
-- A model of the Go driver for KoutenDB, over its native TCP protocol and over its C library, and what
-- it guarantees.
--
-- The driver is one package at the root of the repository. A `Client` (client.go) holds a gate, through
-- which one operation passes at a time, and a map of connections by peer. An operation takes the gate,
-- gets a connection by `ensure`, which dials and negotiates (`handshake` of wire.go) if there is none,
-- and runs one request and its reply by `exchange` (wire.go). A reply is a header line and perhaps a
-- body; once the handshake has set a key, both travel in sealed frames that `fill` opens. Identities and
-- their numbers are parsed by id.go, errors are the sentinels of errors.go.
--
-- Package embedded (embedded/db.go) opens a database of the C library in the process. A `DB` sends the
-- jobs of its callers, one at a time, to a goroutine that owns the library's handle; a job passes C
-- strings to the library and copies the buffers that it returns. The command cmd/conformance answers
-- JSON lines with a client.
--
-- Files and code:
--   Errors.antt                errors.go
--   Uint.antt, Identity.antt,  id.go: `uintField` and `bounded`; `ID` with its text form and parsers;
--   Codec.antt                 `Codec` and `Payload`
--   Options.antt, Peers.antt,  options.go: the records; the test of a peer in `normalize`, with net's
--   Normalize.antt             `SplitHostPort` and strconv's `Atoi`; `normalize`
--   Wire.antt                  wire.go: `wire`, `line`, `rawBytes`, `fill`, `bytes`, `header`, `expect`
--   Environment.antt           wire.go: `deadline`; the context, the clock and the network
--   Exchange.antt              wire.go: `exchange`
--   Handshake.antt             wire.go: `derive`, `handshake`
--   Client.antt                client.go: `Client`, `lock`, `unlock`, `drop`, `Close`, `ensure`, `Dial`
--   Client/Request.antt        client.go: what the operations share around the gate and a request
--   Client/Put.antt            client.go: `PutCodec`, `Put`
--   Client/Read.antt           client.go: `readOperation`, `Health`
--   Client/Redirect.antt       client.go: `read`, `Get`, `Query`
--   Client/Json.antt           client.go: `PutJSON`, `GetJSON`, `QueryJSON`, `decodeJSON`
--   Embedded/Memory.antt       embedded/db.go: `buffer`; C strings, buffers and the handle
--   Embedded/Abi.antt          embedded/db.go: `ID`, `toC`, `fromC`, `text`, `codec`; the C library
--   Embedded/Handle.antt       embedded/db.go: `DB`, `Open`, `OpenDir`, `OpenWithOptions`, `call`, `Close`
--   Embedded/Records.antt      embedded/db.go: `Put`, `PutCodec`, `PutVec`, `Get`, `Query`, `Update`, `Remove`
--   Embedded/Rings.antt        embedded/db.go: `RingOptions`, `ReadRing`
--   Embedded/Json.antt         embedded/db.go: `PutJSON`, `GetJSON`
--   Embedded/Worker.antt       embedded/db.go: the mutex, the channel of jobs and the worker, step by step
--   Conformance.antt           cmd/conformance/main.go: `options`, `request`, `kind`
--   Conformance/Session.antt   cmd/conformance/main.go: `run`, `main`
--   Common.antt, Result.antt,  lists, numbers and options; results and state-passing programs with
--   Decimal.antt, Strings.antt their rules; package strconv and strings as far as the driver needs them
--   Hex.antt                   package encoding/hex
-- The files below these hold the proofs, and Tests.antt the runs at concrete data.
--
-- State is passed explicitly: a function on a connection is `Wire → Result A × Wire`, one on a
-- connection in use `Link → …`, with the clock of questions and the flag `attempted`, and one on a
-- client `Client → …`. A connection's `inbox` is what its peer still delivers, with the kind of error
-- that follows, and its `outbox` all that has been written. Connections that were closed stay in
-- `retired`.
--
-- The conformance command's `client` is an address in a heap of all clients that it has made, each of
-- which has surroundings of its own.
--
-- A job of an embedded database is a function on `World`: the live C strings and buffers by pointer, the
-- library's handle with the store behind it, and a flag that is cleared by whatever C leaves undefined.
-- A world has the handle of one database; others have worlds of their own. `call` runs
-- a job at once, since the mutex is held until the result is there; Embedded/Worker.antt has the
-- interleavings. Embedded/Contract.antt has what the operations ask of the store, without memory, and
-- Embedded/Library.antt the map from identities to records behind it.
--
-- Loops run on fuel, and `out_of_fuel` is an error of its own. `line` has maxHeader + 1 rounds, since
-- the buffer grows by a byte in each; `bytes` has one more than the inbox has bytes, since a frame takes
-- bytes off it; the loop of the writes has as many as the frame has bytes, since a round writes at least
-- one; the hops have MaxRedirects. The two rounds of a read are written out. The `select` of `lock`
-- returns `out_of_fuel` where the program would wait until another goroutine gives the gate back or the
-- context is done.
--
-- Parameters: floats with strconv's ParseFloat and FormatFloat (Floats.antt), the primitives of
-- golang.org/x/crypto (`Crypto` of Wire.antt), each with the laws that are documented of them, and the
-- surroundings (`Env` and `Ctx` of Environment.antt): clock, randomness, deadlines, dialling with TLS,
-- writes and the context's error, which may answer anything at each question. Whether a file of root
-- certificates is good is an argument of `normalize`. Package encoding/json is `Json` of Json.antt. The
-- C library is `Abi` of Embedded/Abi.antt, with a store of its own; `LawfulAbi` says of it what
-- koutendb.h says of records, and three things beyond it: the identity that a put returns is of no record
-- before it (`put_new`), its `t_write` is a finite number (`put_finite`), and `kouten_exists` does not
-- answer KOUTEN_ERR (`exists_answer`). `Platform` of Conformance.antt has base64 and the arithmetic on
-- float64 that the command uses.
--
-- Not modelled: the callback that `exchange` arms on cancellation (what it causes is an early end of the
-- inbox or a failing write), `bytesPtr` and `floatPtr` of embedded/db.go (the bytes and floats are
-- passed to the library themselves), the copy of the library's error text that `lastError` throws away,
-- the examples and the Go tests. After a failed round `retry_at` asks the context once where the program
-- asks twice, as the error of a context that is done stays. Contention for the gate of a `Client`
-- appears as the gate's state when an operation starts.
pub mod Common
pub mod Errors
pub mod Result
pub mod Decimal
pub mod Strings
pub mod Floats
pub mod Uint
pub mod Identity
pub mod Codec
pub mod Conformance
pub mod Wire
pub mod Options
pub mod Peers
pub mod Normalize
pub mod Environment
pub mod Exchange
pub mod Hex
pub mod Handshake
pub mod Json
pub mod Client
pub mod Embedded
pub mod Tests
