-- ===== src/Lib.antt =====
-- mcmon is a monitor of Minecraft servers. It pings each configured server on a schedule,
-- stores what it measures in SQLite, and serves the results to a browser. These modules model
-- its core.
--
-- internal/mcping/mcping.go, the server-list-ping protocol, is modelled by Mcping. Reader has
-- the two readers of the Go library that the protocol reads through: a slice, and a buffered
-- connection that hands over its bytes in segments as the network cuts them, and then fails.
-- VarInt has writeVarInt, readVarInt and writeString; Packet has the packet of writePacket, and
-- readPacket, readFull and readFullReader; Status has readStatus and parseStatusJSON; Session
-- has StatusRequest and Ping, on a connection whose writes may fail. json.Unmarshal is an
-- argument, as are the results of dialling, the clock and the time that a pong takes. A latency
-- is kept in microseconds, as time.Duration.Microseconds gives it, and the division by 1000.0
-- is left out. Buffers have no size, so that running out of memory for a length that a server
-- claims is not modelled.
--
-- internal/app/config.go is modelled by Config. Target has Target, its monitors, normalized and
-- validate; Targets has the loops of Get, Upsert and Delete over the list of targets; Disk has
-- atomicWriteFile on a disk on which each operation may fail, may write only a part, and may be
-- the last before the process stops; Store has ConfigStore and its methods, each of which holds
-- the mutex throughout and so is one step, loadConfig, writeConfig and openConfigStore.
-- encoding/json is an argument, with reading back what it wrote as a named assumption
-- (ReadsBack). The ids of generateID are arguments. A mode of a file and the layout of the JSON
-- text are not modelled.
--
-- internal/app/prober.go is modelled by Prober. Schedule has the loops that Start runs for a
-- target; Burst has runProbeBurst, with the calls of mcping.Ping as an argument; Percentile is
-- exact where the source rounds; Clock has the durations as int64 nanoseconds that wrap around;
-- Manager has Start, Sync and Stop with the channels and the goroutines. Start is one step, as
-- it holds the mutex; a call of Stop is a step under the mutex and then one step for each
-- channel that it closes, and Manager.Steps mixes the steps of any calls; Manager.Serving takes
-- calls that do not overlap. Record has the runs of a loop, as the insertions that they try.
-- Not modelled is the select that ends a loop once its channel is closed.
--
-- internal/store/store.go is modelled by Storage. Its records keep a float64 as the fraction
-- that the source computes it from; Query has Open, Insert, InsertMetric, Series and
-- MetricSeries over a database that is an argument, with one operation for each SQL statement,
-- and Query.History states what the source relies on SQLite for; Reverse has the reversal of a
-- series. The handle of sql.Open and its Close are not modelled.
--
-- internal/app/server.go is modelled by Server. Address has isBlockedRemoteIP, with the tests
-- of package net on the bytes of an address written out; Proxy has normalizeRemoteHost and the
-- DialContext of safeProxyTransport; Api has what the handlers of newMux share, and its
-- children the handlers: Targets (with the import), Queries (series, metrics and the background
-- service) and Remote (configuration, login and relay); Mux has the choice of the handler for a
-- path, and the server as one state. The packages net and net/url, the HTTP client,
-- encoding/json and the file server on the embedded pages are arguments. Requests are served
-- one after the other, and an answer is kept as a value, without its JSON text. A handler that
-- writes a status which does not have three digits panics, as WriteHeader does; the redirects
-- of the mux for a path that is not clean are not modelled. Api.InStep says when the Manager
-- and the ConfigStore are in step, by Prober.Manager.Serving, which sees a Manager as a
-- dictionary of the targets whose loops run.
--
-- internal/app/service.go is modelled by Service. Quote has systemdQuote, Files the texts for
-- the three platforms, System the files and commands that the functions work on, and Install
-- the functions. Whether a command succeeds is an argument; what it does to the files is not
-- modelled.
--
-- internal/app/runtime.go is modelled by Runtime, which puts the configuration, the database,
-- the Manager and the server together. cmd/mcmon/main.go is modelled by Command, and
-- main_desktop.go by Command.Desktop, with the package flag and the window as arguments. A JSON
-- map is kept as its fields in the order of their keys, and a number as its text. What systemd
-- reads of a quoted word is Service.Quote.Words, for words without the runes that systemd
-- expands or that end a line.
--
-- Go's int is the integer type ℤ of Prelude, without overflow where the source does no
-- arithmetic that reaches 64 bits; conversions to uint32 and uint16, and products of durations,
-- wrap around as in Go. The loop of readVarInt runs on fuel for six rounds, which is enough
-- since the sixth returns; readFull and readFullReader run on fuel for one round more than the
-- buffer has bytes, which is enough since each round stores a byte or ends; the error `stuck`
-- stands for fuel that ran out.
--
-- Not modelled: requests that overlap; the window of the desktop program, which is the Wails
-- library's; the goroutine of RunServer that calls Shutdown, and Close; and the pages
-- (internal/app/static).
pub mod Prelude
pub mod Mcping
pub mod Config
pub mod Prober
pub mod Server
pub mod Storage
pub mod Service
pub mod Runtime
pub mod Command
