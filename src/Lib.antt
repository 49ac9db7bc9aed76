-- ===== src/Lib.antt =====
-- TrueStore: an in-memory store that speaks the Redis protocol.
--
-- Bytes from a client are split into commands by the parser of resp/resp.cpp. Each command passes
-- the checks of command/command.cpp (authentication, subscribed mode, transactions), which hands
-- it to a handler; the handlers are methods of one class, `Store`, in the files of store/, pubsub/
-- and stream/. A handler changes the store's fields and returns the bytes of its reply. What it
-- cannot do itself it leaves in fields that the server's loop takes after the command: a block
-- request, commands for replicas and the append-only file, and messages for other clients.
--
-- A handler here takes the clock readings of the command (where it reads a clock), the arguments
-- and the store, and returns the bytes with the new store. It has the name of the method. Helpers
-- without a method's name are parts of the method that the comment above them names. An exception
-- that a handler catches is `none` of an `Option`, and one that leaves it is a constructor of its
-- result or, in Auth, `none`.
--
-- Files, with the sources from the repository's root:
-- - Resp, Resp/Parse: src/resp/resp.cpp, `RespType::to_bytes` and the parsers.
-- - Store/Types, Store: src/store/store.hpp, src/store/store.cpp, and the IDs of
--   src/stream/stream.hpp.
-- - Strings: src/store/strings.cpp. Lists: src/store/lists.cpp.
-- - SortedSets, SortedSets/Commands: src/store/sorted_sets.cpp.
-- - Streams: src/stream/stream.cpp. Streams/Commands, Streams/Read: src/store/streams.cpp.
-- - Geospatial, Geospatial/Commands, Geospatial/Queries: src/store/geospatial.cpp.
-- - Bitmaps: src/store/bitmaps.cpp. Rdb: src/rdb/rdb.cpp. Config: src/config.
-- - Replication: src/replication/replication.cpp. Setup: `Store::init` and `Store::load_entries`
--   of src/store/store.cpp, and src/store/config_commands.cpp.
-- - Aof, Aof/Restored, Aof/Log: src/aof/aof.cpp, what is written to the log and its replay.
-- - Server, Server/Clients, Server/Primary: src/server/server.cpp, what follows a command of a
--   client and blocked clients; requests, messages and connections; and the stream from a primary.
-- - Client, Command, Command/Handlers: src/command/command.hpp, src/command/command.cpp, where
--   Handlers is `dispatch_command`.
-- - Sound: the parts of the store together, along any history of the server.
-- - PubSub: src/pubsub/pubsub.cpp. Auth: src/auth/auth.cpp.
-- - Base, Text, Dict: numbers, decimal text and its readers of the C++ library, and tables. The
--   modules below a component hold its theorems. TestPlatform and Examples: theorems at concrete
--   inputs.
--
-- Platform holds what the repository calls and does not implement, as parameters: `double` with
-- its reader, its printers and its arithmetic, the radix tree of third_party/rax, `fnmatch`,
-- SHA-256, and the order of hash tables. Theorems that need their documented laws take them as
-- records: `DoubleLaws` (a strict order), `RaxLaws` (an ordered map), `DigestLaw` (32 bytes), and
-- `StoreLaws` (these together, and that a whole number is not a NaN). TestPlatform and
-- Examples/Places prove them for a concrete platform.
--
-- Numbers: 64-bit and 32-bit quantities are natural numbers or signed integers with the
-- wrap-around written out where the source can reach it: the positions of the parser, the
-- nanoseconds of a deadline, the replication offset, and INCR. The loops are over lists or over a
-- counted number of elements, so no fuel is needed, but for those of `load_rdb`, of the chunks of
-- a file, of the replay, of the requests of a client and of the stream from a primary. Their fuel
-- is the number of bytes (one more for the last three), which is enough since each round takes at
-- least one byte; all but the chunks have a result of their own for a fuel that ran out. The
-- vector of a request is limited by `max_elements`, the `max_size` of a vector of 32-byte
-- strings. A command reads each clock once.
--
-- Not modelled: the manifest of src/aof; and sockets, files, `poll` and the start in src/server,
-- src/net and src/client, which are I/O. In Server/Clients, `reaches` says whether `send_all` to
-- a client succeeds, always the same for the same bytes, and `clients` stands also for the
-- descriptors that are polled. Failures to allocate memory are left out. An exception that leaves
-- a handler is answered by `dispatch_command` here, as the loop of the server answers it; inside
-- EXEC it would end the whole transaction instead.
pub mod Base
pub mod Text
pub mod Dict
pub mod Rdb
pub mod Config
pub mod Resp
pub mod Platform
pub mod Store
pub mod Replication
pub mod Setup
pub mod Strings
pub mod Lists
pub mod SortedSets
pub mod Streams
pub mod Client
pub mod PubSub
pub mod Auth
pub mod Command
pub mod Bitmaps
pub mod Geospatial
pub mod Sound
pub mod Aof
pub mod Server
pub mod TestPlatform
pub mod Examples
