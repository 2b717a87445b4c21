-- ===== src/Lib.antt =====
-- Verification of the DinoDB storage engine: a database of B+tree and hash table indexes whose pages
-- are cached by a pager, with transactions on top that lock entries and a log for recovery.
--
-- The parts and their files:
-- - Entry: pkg/entry/entry.go. Entries and their serialized form; Entry/Varint is the part of Go's
--   encoding/binary that the engine uses (PutVarint and Varint in ten bytes).
-- - Page: pkg/pager/page.go. The bytes of a page in memory; Page/Bytes and Page/Slots say what a write
--   does to later reads, of bytes and of the entries in consecutive slots.
-- - Hash/Bucket: pkg/hash/bucket.go and constants.go. A bucket is the struct with its page: each
--   operation reads and writes the bytes of the page the way the code does. The page size is an
--   argument, since it is a constant of another package (directio).
-- - Hash/Table: pkg/hash/hashers.go, hashTable.go and cursor.go. The directory and the operations,
--   over a store of pages that stands for the pager; the 64-bit hash function is an argument. `split`
--   runs on fuel, since it does not end where more keys than a bucket holds share a hash.
--   Hash/Table/Split: the loop that moves the entries; Hash/Table/Directory: the loop over the
--   directory; Hash/Table/Led and Hash/Table/Divide: a round of split.
-- - Pager: pkg/pager/pager.go, the frames and the file. Pager/Contents says what a page holds, in a frame
--   or in the file; Pager/Fetch and Pager/Handed are about GetPage, Pager/Lost about an
--   eviction whose write fails: arguments say which pages can be read and written.
-- - LinkedList: pkg/list/list.go on a heap; LinkedList/Commands: pkg/list/list_repl.go.
-- - Repl: pkg/repl/repl.go, the table of commands and the loop that runs them; Repl/Combine,
--   Repl/Lookup and Repl/Added are about CombineRepls and AddCommand.
-- - Btree: pkg/btree/constants.go and node.go; Btree/Leaf: pkg/btree/leafNode.go; Btree/Internal:
--   pkg/btree/internalNode.go. Nodes over the bytes of their pages; a page that the pager hands out for
--   a new node is an argument. Btree/Search and Btree/Order are the binary search of Go's library
--   and the order of entries by key.
-- - Concurrency/Graph: pkg/concurrency/deadlock.go, the waits-for graph and the search for deadlocks.
-- - Concurrency/Resource: pkg/concurrency/resource.go and resource_locks.go, a mutex for each entry.
-- - Concurrency/Manager: pkg/concurrency/transaction.go and transaction_manager.go. The state of the
--   manager with Begin, Lock, Unlock and Commit; Manager/Steps has the interleavings of the clients'
--   calls as a step relation, in which a call of Lock is two steps, one up to its wait for the
--   resource (`request`) and one from there on (`acquire`).
-- - Concurrency/Handlers: pkg/concurrency/transaction_repl.go; Concurrency/Effects and
--   Concurrency/Granted are about its handlers and about the locks that a client holds.
-- - Text: what the handlers use of strconv, strings, fmt and path/filepath; Text/Numbers and Text/Words
--   are about the texts of numbers and the words of a payload, Text/Paths has Clean and Join.
-- - Errors: the errors of the handlers, with what stands behind their texts.
-- - Database: pkg/database/database.go and index.go; Database/Handlers: pkg/database/db_repl.go. A table
--   is a state behind the interface Index, and the operating system is the record Files over a state
--   of the file system; both are arguments, of which the theorems assume nothing: they say which calls
--   of an index bring an effect about. Database/Values is the value that an index finds;
--   Database/Effects is about the handlers.
-- - Recovery: pkg/recovery/log.go; Recovery/Parse: logFromString, with the scanners of its regular
--   expressions; Recovery/Parse/Scanners, Recovery/Parse/Records and Recovery/Parse/RoundTrip: what a
--   log is read back as. Recovery/Manager: the state of recovery_manager.go and the functions that
--   write the log, Checkpoint and Prime; Recovery/Restart: redo, undo, Rollback and Recover;
--   Recovery/Parse/Lines: readLogs; Recovery/Handlers: recovery_repl.go, whose handlers take Rollback
--   as an argument, since Rollback calls them. Recovery/Effects says what a handler does; the modules
--   below Recovery/Restart are about undo, Rollback, redo and Recover.
-- - Examples, Examples/Recovery, Examples/Restart, Examples/Logs and Examples/Split: the theorems at
--   concrete inputs, with an index in memory, Examples/Memory; Runs: operations of the linked list and
--   the REPL on small inputs.
--
-- Database/Commands, Concurrency/Commands and Recovery/Commands are the tables of commands of the three
-- REPLs, whose state is `none` after a call that did not return.
--
-- How they interact: a bucket stores marshalled entries in the slots of a page; the transaction
-- manager asks the graph for a deadlock and the resource locks for the entry. A handler of the
-- recovery REPL reads the payload, writes the log, and calls the handler of the transaction REPL,
-- which locks the entry and calls the handler of the database with the same payload; redo and undo
-- print payloads for these handlers.
--
-- Conventions. A value of int64 is a signed integer, and each theorem says where it needs its bounds;
-- a count, an index or an offset is a natural number. `none` in an operation on pages is a Go panic.
-- `dfs` runs on fuel: a search marks the target of one more edge with each step, so that one step more
-- than there are edges is enough; the binary search runs on the length of its range, which every step
-- shortens. Rollback runs on fuel, since a handler that fails inside it calls it again; where every
-- edit can be taken back no handler fails, and one step is enough. A client id and the address of a
-- transaction are numbers, which the code only compares; a Go map is an association list.
--
-- Not modelled: the locks of pages, the calls of a B+tree node into its children, the index of the
-- B+tree with its cursor and checks, HashIndex (neither is connected to the interface Index), the
-- files of a hash table, the texts of errors, the pager's REPL, and everything that only prints. A
-- handler with its call of Lock is one step, and has no result while it would wait; errors of the log
-- file are values, except where the code drops them.
pub mod Prelude
pub mod Entry
pub mod Page
pub mod Hash
pub mod Btree
pub mod Concurrency
pub mod Examples
pub mod LinkedList
pub mod Pager
pub mod Repl
pub mod Text
pub mod Errors
pub mod Database
pub mod Recovery
pub mod Runs
