-- ===== src/Lib.antt =====
-- VortexDB (src/): a key-value store with a value log, sorted tables on disk, a memtable and a
-- cuckoo filter. A write appends the value to the log (src/vlog.cpp) and keeps a pointer to it
-- under the key; a full memtable becomes a sorted table of keys and pointers (src/sstable.cpp),
-- whose name the manifest (src/manifest.cpp) keeps; a lookup asks the filter (src/cuckoo.cpp), the
-- memtable and the tables, and reads the value through the pointer.
--
-- The files:
-- - Base: names of the libraries, and the helpers that the parts share. Base/Words: bytes and
--   unsigned integers, which wrap at 2^8, 2^32 and 2^64, and their little-endian bytes.
--   Base/Order: the order of strings. Base/Map: `std::map` as a list of entries in the order of
--   their keys. Base/Decimal: `std::to_string`.
-- - Files: a directory as a map from names to bytes, and input streams with a position and a
--   fail bit. A value that a short read left without a value makes a run `indeterminate`.
-- - Cuckoo: `CuckooFilter`. `rand` is a parameter, a function from the number of the call to its
--   value. Cuckoo/Slots, Cuckoo/Conserve, Cuckoo/Valid and Cuckoo/Membership: buckets, what an
--   insertion stores, the invariant and removal, and lookups.
-- - Manifest: `Manifest`. Manifest/Reload: what `load` reads back.
-- - Vlog: the types of src/vlog.h. Vlog/Pointer: the bytes of a pointer. Vlog/Crc: the checksum.
--   Vlog/Writer: `VLogWriter`. Vlog/Beside: files that are no segments. Vlog/Log, Vlog/Append: the writer against an abstract log, the
--   bytes of each segment with those that are still in the buffer. Vlog/Reader: `VLogReader`.
--   Vlog/Points, Vlog/Cache, Vlog/Durable, Vlog/ReadBack: pointers into the log, the value cache,
--   and what is read back.
-- - SsTable: `SSTable` and `SSTableIterator`. SsTable/Layout, SsTable/Index, SsTable/Seek,
--   SsTable/Find: the bytes of a table, its sparse index, `seek`, and lookups.
-- - Engine: the parts of src/vortex.cpp that are modelled, on keys without a slash. Engine/Infer:
--   the type of a value. Engine/Scan, Engine/Replay: the loops over the entries of the log, and
--   what they visit, by Vlog/Next. Engine/State: `VortexDB`, `put`, `get` and the flush of the
--   memtable. Engine/Ready, Engine/Lookup, Engine/Store: reads through the cache while entries
--   are in the buffer, lookups, and what `put` stores. Engine/Reaches, Engine/Spares: the pointer
--   that a lookup finds in the memtable or in a table, and what `put` and `del` leave of the rest. Engine/Tables: lookups in the tables.
--   Engine/Index: the index file. Engine/Recover, Engine/Latest, Engine/Recovered: recovery of the memtable from
--   the log. Engine/Merge: the iterators of src/vortex.h and `MergingIterator`; its children
--   show that it merges ordered streams. Engine/Range: `get_range_internal` and
--   `get_all_keys_internal`, and what a range answers. Engine/Delete: `del`. Engine/Segments: the
--   segments of the log that the directory has, and `get_range`, `get_all_keys`, `get_prefix` and
--   `get_stats`, which let go of the writer and open it again. Engine/Compact: `compact`, and the
--   index that it rewrites. Engine/Open: the constructor; Engine/Open/Restart and
--   Engine/Open/Restored: a database that is closed and opened again.
-- - Text: what the program uses of strings and string streams; Text/Words, Text/Ends and
--   Text/Numbers: words, the ends of a string, and numbers in it.
-- - Database: the operations of `VortexDB` as an interface, for its two clients.
-- - Server: `process_command` and `handle_client`. Server/Commands: the commands and their texts.
--   Server/Texts, Server/Dispatch, Server/Errors, Server/Session: commands, lines that are none, and sessions.
-- - Shell: the loop of src/main.cpp. Shell/Step and Shell/Loop: its commands, and its rounds.
--   Shell/Stacks, Shell/Moves, Shell/Rounds: the stacks of the databases that are open.
-- - Together: the server over the engine, and Together/Answers: what a client of it is told.
-- - Tests: runs at small inputs.
--
-- Loops are recursion on a list or on the number of rounds that the code's own counter allows.
-- Only the loops over the entries of a segment, of the index file and of a range have fuel, and any
-- number greater than that of the entries is enough. Opening a file for writing succeeds, and bytes that
-- are written to a file are in it at once. Left out are the locks, databases within a database,
-- snapshots, and of the server the sockets and the threads.
pub mod Base
pub mod Files
pub mod Cuckoo
pub mod Manifest
pub mod Vlog
pub mod Text
pub mod SsTable
pub mod Engine
pub mod Database
pub mod Server
pub mod Shell
pub mod Together
mod Tests
