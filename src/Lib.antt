-- ===== src/Lib.antt =====
-- LiteStore, a key-value server with expiring keys, in Python.
--
-- A request is a line of text. src/protocol.py parses it, src/router.py finds the partition of its
-- key, and the worker process of that partition (src/process_worker.py) executes it with
-- src/commands.py on its own store (src/store.py), whose deadlines are kept by a timing wheel
-- (src/timing_wheel.py). A write is appended to the log of the partition (src/persistence.py), which
-- is replayed when the process starts. The response goes back as lines. src/server.py reads the lines
-- of all connections; it reaches the processes through src/worker_pool.py, or keeps all workers
-- (src/worker.py) and one log in its own process. src/metrics.py counts what was executed, with the
-- keys that src/countmin.py finds to be frequent.
--
-- The files and the code:
--   Base, Base/*     lists, integers, dictionaries and texts, shared by all
--   Clock            the time source and the float arithmetic, as parameters
--   Builtins         str.upper, int, fnmatch and str of a dictionary, as parameters
--   Types, Errors    src/types.py and src/errors.py
--   Wheel            TimingWheel. Filed has its invariant on buckets, Timed that on ticks, Sweep the
--                    pass over the ticks, Remains the specification of a pop, Ranges which buckets a
--                    range of ticks reaches, PopDue and Schedule the two operations against their
--                    specifications, Lifetime the invariant of all operations, Delivery what a
--                    caller relies on
--   Store            MemoryStore. Shed has what a pass of expirations drops, Synced the invariant
--                    between the data, the deadlines and the wheel, Methods each method, Reads what
--                    GET answers, Holding which values stay, Recovery
--                    the replay of a request, Reachable every sequence of calls
--   Interfaces       src/interfaces.py; Filled has the log, the router and the worker as its interfaces
--   Commands         execute_command, over any store; Responses and Keeps. Contents is the specification
--                    by a function from keys to values, and Writes what a command does to a key
--   Protocol         parse_command and serialize_response; Parsing and Exchange
--   Router           DeterministicHashRouter
--   Persistence      AofPersistence; Durability has the fsync policy, Replay the reading back
--   ProcessWorker    WorkerProcess; Entry has its start by the pool, Runs its invariant, Answered its
--                    responses, Logged the log against the store, Restart what a restart gives back
--   Worker           StoreWorker of src/worker.py, over any store
--   WorkerPool       the pool of src/worker_pool.py; Channels has every exchange of a handle
--                    with its process, Order the order of the answers, Answers and Values
--                    what they tell of a key, Exchange a request alone, Started what the processes
--                    start with
--   CountMin         CountMinSketch of src/countmin.py; Bounds has what an estimate tells. TopK is the
--                    tracker of frequent keys: Heaps has the heap, Tracking the invariant, Eviction
--                    who replaces whom, Counts what it knows after any keys, Ranking `top_k`
--   Metrics          MetricsCollector of src/metrics.py. Rendering has the text, Buckets and Histogram
--                    the counters, Rendered the text against them, Labels the escapes, Memory the
--                    snapshots
--   Config           src/config.py
--   Main             src/main.py; Runs has when it runs and when it raises
--   Server           LiteStoreRuntime of src/server.py with its workers in one process. Start has its
--                    construction, start and end, Http the metrics endpoint, Serving the answer to one
--                    line, Begun what the start leaves, Life the invariant from there on, Connection
--                    `_handle_client` and Clients its properties, Acknowledged the log and the answers. Held has what the worker of a
--                    key has for it, Values what a request does to that, Visible what is read after
--                    a write, Replayed and Started what the start reads from the log, Restorable the
--                    log against the workers, Restart what a restart gives back
--                    Pooled is the runtime with worker processes: System has its interleavings, Begun
--                    its start, Steps one step, Order what is sent and taken, Values what the
--                    responses tell of a key
--   Tests, Tests/*   concrete parameters and examples
--
-- How the code is written here. A method of an object is a function from its state to the state
-- after it, with the result. An exception is the `raised` of a result. A loop over a Python sequence
-- is a recursion on the list, and the range of ticks of `pop_due` is the list of its numbers, so no
-- loop runs on fuel. A table of a sketch has at most 256 rows, for which Python's bytes([row])
-- does not raise. The endless loop of a worker process takes the list of what its queue will hold,
-- with an entry for each timeout, and ends with it. A dictionary is an association list, in order of
-- insertion; a set of keys is one without repetition, and is iterated in the order of insertion.
-- Texts are lists of code points.
--
-- Times are floats that are not negative, counted in multiples of the smallest positive float, so
-- that their comparison is that of numbers. What rounds, which is the tick of a time, the start of a
-- tick, a time some seconds later and the whole seconds between two times, is a field of `Clock`.
-- `IsRegular` says of it that rounding keeps the order, that every time is 0 ticks from itself, and that
-- adding does not go down. An EXPIRE whose sum or tick is beyond the largest float raises an
-- OverflowError: `expire_raised` says when, and what it leaves. It ends the loop of a worker process and
-- a connection of the server in one process; elsewhere, and in a replay, no EXPIRE is taken to overflow.
-- Times before the epoch are not modelled. The clock may jump back: no theorem assumes that readings grow.
--
-- UTF-8, SHA-256 and JSON are parameters as well, with what the theorems need of them as hypotheses.
-- Keys and values have no lone surrogates, which UTF-8 does not encode. A log is text that UTF-8 decoded.
-- In src/persistence.py the writing and syncing of the log succeed; the server is also given appends
-- that raise an OSError, which leave the log in any state. The text of
-- the log is split at line feeds and carriage returns, as Python's text files are.
--
-- A request that waits for a worker process is two steps of the server, and steps of other connections
-- and of the processes may come between them.
--
-- Not modelled: the listeners, ports and tasks of asyncio in src/server.py, the reading of the command
-- line by argparse, and the benchmarks under scripts.
pub mod Base
pub mod Clock
pub mod Wheel
pub mod Types
pub mod Builtins
pub mod Store
pub mod Errors
pub mod Interfaces
pub mod Commands
pub mod Protocol
pub mod Router
pub mod Metrics
pub mod Persistence
pub mod ProcessWorker
pub mod CountMin
pub mod Worker
pub mod Config
pub mod Server
pub mod WorkerPool
pub mod Main
mod Tests
