-- ===== src/Lib.antt =====
-- A model of RMDB, the database of this repository, and what it guarantees.
--
-- RMDB runs SQL statements in transactions. The executors (execution/) read and write records through
-- record files, B+ tree indexes and a buffer pool (record/, index/, storage/, replacer/), and lock
-- what they touch through one lock manager (transaction/concurrency/), by strict two-phase locking
-- on tables, records and the gaps of indexes, with wait-die against deadlock. All paths are below
-- the repository's src/.
--
-- The files:
--   Common           what all modules share: Boolean tests on numbers, lists, association lists for
--                    std::unordered_map, and integers for the C `int` counters.
--   Gap              execution/execution_defs.h and the class Gap of transaction/txn_defs.h: `Compare`
--                    has the definitions, `Overlap` relates isCoincide to isInGap.
--   Transaction      the lock ids of txn_defs.h with their operator== (`LockDataId`), and the state of
--                    a transaction with check_lock (`State`).
--   LockManager      transaction/concurrency/lock_manager.{h,cpp}. `Queue` has the lock modes and the
--                    request queue; `Record`, `Table` and `Intention` have what the operations do to
--                    one queue; `Release` what unlock does to it; `Manager` the state, the operations
--                    as callers see them and unlock; `Gaps` lock_shared_on_gap and
--                    lock_exclusive_on_gap; `SafeInGap` isSafeInGap.
--                    `Steps` and `GapSteps` are the interleavings: step relations on one queue of
--                    the lock table and on the gap locks of one index. The theorems are in `WaitDie`,
--                    `Exclusion`, `TwoPhase`, `Release/Spec`, `GapExclusion` and `Insert`, and below `GapSteps`.
--   Replacer         ClockReplacer of replacer/lru_replacer.h (`Clock`).
--   Storage          storage/page.h and BufferPoolInstance of storage/buffer_pool_instance.{h,cpp}
--                    (`BufferPool`). `View` says what a pool shows of the pages and when it is
--                    coherent; `Exchange` is the step in which a frame goes to another page; `Fetch`,
--                    `Pinned` and `Pins`, `Unpin`, `Flush`, `Start` and `Stale` are about the operations.
--   Record           record/: `Bitmap` is bitmap.h, `File` rm_file_handle.{h,cpp} and rm_defs.h, `Manager`
--                    the file header of rm_manager.h, and `Scan` rm_scan.cpp. Below `File`, `Page` is
--                    about one page, `Invariant` about a file and its list of free pages, and
--                    `Places`, `Change`, `Insert` and `Fill` about the operations; below `Scan`, `Order` is about
--                    one step, `Listing` and `Complete` about a whole scan.
--   Recovery         recovery/: `Log` has the log records of log_manager.h and log_defs.h and their bytes,
--                    `Manager` the LogManager of log_manager.{h,cpp}. `Log/RoundTrip`, `Log/Sizes` and
--                    `Manager/Appends` are about them.
--   Index            index/ix_index_handle.{h,cpp}: `Node` is IxNodeHandle with ix_compare. Below it, `Search` is
--                    about the binary searches, and `AsMap`, with the lemmas of `Update` and `Place`, about
--                    look-up, insertion and removal.
--   TransactionManager   transaction/transaction_manager.cpp; `Written` is about its writes, `Abort` about
--                    rollbacks.
--
-- How the model follows the code:
--   * An operation holds the latch from its start to its end or its wait, so it is one function on
--     the state. What follows a wait is another function, named wake_…, which is `none` while the
--     predicate of the wait is false. notify_all only chooses when predicates are read again: the
--     step relations let a sleeper wake at any time at which its predicate holds.
--   * Exceptions, failed assertions and waits are constructors of a verdict or an outcome. The build
--     does not define NDEBUG, so assertions are live.
--   * Transaction ids, file descriptors, page and slot numbers are natural numbers: the code never
--     makes negative ones for locks. Where the bound of int32 matters a theorem names it. The two
--     counters of a queue are integers without overflow, for they count requests in memory.
--   * Maps are association lists under the key's operator==; the order of the list stands for the
--     iteration order, on which no theorem depends. std::hash<Gap> is a parameter, and so is the
--     comparison of floats, of which theorems assume that it orders the values at hand.
--   * The loop of unlock runs on fuel, the length of the queue, which is proved to be enough. The
--     loop of isSafeInGap runs on fuel that the caller gives; a theorem says where no fuel is enough.
--   * isSafeInGap waits within its loop, so it takes a list of the moments at which the predicates of
--     its waits are read: what other transactions have made of the lock tables by then, and the
--     state they have put the transaction in. A queue that has left the table by then is the end.
--   * The files below the buffer pool are a function from page ids to contents: write_page changes it
--     at one id, read_page reads it. The frames of an instance are the 4096 of common/config.h. What
--     the constructors leave uninitialised, the clock's arrays and the fd of a fresh page, is a
--     parameter. The hand of the clock makes at most 8192 rounds, as in the code.
--   * A record file is seen from above the buffer pool: the contents of each page, which is what
--     Storage/View says that the pool shows, and one entry for each pin held. Whether the pool has a
--     frame for a page is a parameter. A page is its header, bitmap and slots, which Record/Manager
--     shows to fit; what a memcpy would write past the page is lost. An operation of a record file is
--     one step: latches of pages are not modelled.
--   * Bytes are numbers below 256 and a `char*` is the list of the bytes from there on. The log file is
--     the list of its bytes, and each write to it succeeds as a whole.
--   * The keys and rids of a node are one list of pairs, up to its num_key. That a node has room for
--     what is inserted is the tree's task, by isSafe and splits.
--
-- Not modelled: the buffer pool manager, the LRU replacer, recovery, the trees of the indexes above
-- their nodes (the transaction manager takes them as a parameter), the catalogue, the SQL front end and the executors.
-- std::condition_variable, std::mutex and the hash maps are the standard library's.
pub mod Common
pub mod Gap
pub mod Transaction
pub mod LockManager
pub mod Replacer
pub mod Storage
pub mod Record
pub mod Recovery
pub mod TransactionManager
pub mod Index
