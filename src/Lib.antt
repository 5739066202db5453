-- ===== src/Lib.antt =====
-- The verification library of DBS, the encrypted backup program for Django databases.
--
-- A backup leaves the program as a container: a stream of plaintext is cut into chunks, each chunk
-- is sealed by an AEAD cipher, put in a block, encoded by a Reed-Solomon code, tagged by a keyed
-- hash and written twice, a window of slots apart. Reading undoes this, repairs what it can from
-- the parity and the second copies, and reports what it did. Around it stand the headers by which
-- a file is recognised, the leases that keep two processes from one backup, the retention that
-- decides which backups go, and the manager with its web shell. Inside a container stands a
-- payload of frames: a header, the manifest of the files, their data, batches of rows and a
-- trailer, made and read by threads that a pipeline of bounded channels joins. What is done is
-- recorded in an audit trail whose finished entries are sealed in a chain of hashes; jobs and
-- scheduled backups hold leases while they run and are recovered from these when their processes
-- stop.
--
-- The files, and the sources that they model:
--   Prelude          lists, rows, byte strings as lists of numbers, Boolean tests
--   Result           the exceptions as values, and what a result ensures
--   Bytes            big-endian integers, as `struct` packs them
--   Dict, Text       the dictionaries and the texts that the components share
--   Container.Rs     dbs/container/rs.py: the field and its tables (Field, Table), the vectorised
--                    parity (Parity), `encode_many` (Encode), `decode` and its parts (Decode,
--                    RoundTrip), `repair_from_copies` (Repair, Restore)
--   Container.Stream dbs/container/stream.py: the layout and its limits (Layout, Burst), the schedule
--                    of the slots (Schedule), `StreamWriter` (Place for `_emit` and `_place`, Writer
--                    for the rest), the trailer (Trailer, TrailerTrip), and `StreamReader`: the checks
--                    and the repair of a block (Reader, Reader.Vouch), the pass over all slots
--                    (Reader.Pass, Order, Read, Total), and the search for the end of a damaged
--                    container (Reader.Ends, Scan), and the header with the search for its copies
--                    (Header)
--   Container.Blocks dbs/container/blocks.py: `repair_copies` of format version 1
--   Container.Format dbs/container/format.py: sealed and version 1 headers, and the search for them
--   Crypto           dbs/crypto/chunked.py: the nonces; Crypto.Limits: dbs/crypto/kdf.py
--   Leases           dbs/leases.py: the table of leases as a list keyed by name, and the processes'
--                    operations in the order in which the database commits them
--   Retention        dbs/retention.py: `stale_stored_backups` and `stale_beyond_limit`
--   Tee              dbs/tee.py: the sink that writes a file and a stream, and the free name that the
--                    file gets
--   Scheduling       dbs/scheduling.py: the loop of a schedule; dbs/manager/scheduler.py: the claim of
--                    a task and a tick
--   Engine           dbs/engine: the frames and their reader (Frames, Refine, Trip; Kind names them),
--                    the values that JSON text is parsed to (Json), `PayloadReader` and the checks of
--                    what the frames hold (Payload, Payload.Reader; frames.py), `_read_through`
--                    (Payload.Through; validate.py), and the channels, the segments and the prefetched
--                    bytes (Pipeline; pipeline.py), with the line of threads of `encoding`
--                    (Pipeline.Line)
--   Audit            dbs/audit.py: the table of events, `seal_pending` and `verify_chain`, and the
--                    calls that record, queue, start, close and interrupt (Operations)
--   ScheduleRunner   dbs/schedule_runner.py: the scheduled backups, and their row in dbs/models.py
--   Jobs             dbs/jobs.py and `settle` of dbs/job_process.py, over Leases and Audit
--   OutputBuffer     dbs/manager/shell/buffer.py: the buffer of a shell's output
--   Examples         concrete runs
--
-- A definition has the name of the function, method or class that it models, in this library's
-- spelling, and a comment names the part of a function that a helper stands for. State is passed
-- on explicitly: a record holds the fields that a method touches, and a method is a function from
-- the record to the record, or to a result where the source raises. A generator is a function that
-- calls its consumer for each pair it would yield. What the `reedsolo` package, the AEAD cipher,
-- the hash functions, the JSON parser and the JSON printer compute is a parameter: `Codec`,
-- `Primitives`, `Checks`, `Aead`, `FormatChecks`, `Parsers`, or a function of the same name. The
-- clock's value, how an attempt ends and whether the database answers after a commit are arguments
-- of a call. The message of an exception is left out; its class is a constructor of `Error`.
--
-- Fuel and bounds. Loops over a sequence or a range are recursion on the list or on the number of
-- rounds left. Fuel is used where the source's loop has no such bound: `queue_while` has the
-- length of the data, and each round takes at least one byte of it; `groups_of`, `parity_batches`
-- and `slots_from` have the number of jobs, rows or slots, and each round takes a whole batch;
-- `advance` has the number of entries that are ready, and each round removes one; `scan_rounds`
-- and `tail_rounds` have the length of what they search, and each round goes on by at least one
-- byte. The loops of `PayloadReader` take one frame in each round; more rounds than the payload
-- has bytes are enough, and `out_of_fuel` is the error of a run that has too few. `cut_item` has
-- the length of its item, of which each round takes at least one byte, and `digits` has one more
-- than the number. Threads that wait for a channel are in no step: an operation is a step when it
-- goes through. Subtraction stops at 0 where the source's would be negative; the comments beside
-- such definitions say why both behave alike.
--
-- Not modelled: the derivation and the wrapping of keys, the manifest of version 1, reading from
-- files rather than bytes, the part of the engine that serialises rows and restores them, the
-- compressor and the inflater, the processes and threads of jobs, the transports over SSH and
-- HTTP, the guard, the manager's views, models and services, and the front end, which this library
-- leaves aside so far.
pub mod Prelude
pub mod Result
pub mod Bytes
pub mod Text
pub mod Dict
pub mod Container
pub mod Retention
pub mod Leases
pub mod Audit
pub mod Engine
pub mod ScheduleRunner
pub mod Jobs
pub mod Crypto
pub mod Tee
pub mod Scheduling
pub mod OutputBuffer
pub mod Examples
