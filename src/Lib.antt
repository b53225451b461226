-- ===== src/Lib.antt =====
-- uring_sync: copying many files, locally with io_uring or over the network.
--
-- Locally, a scan puts a `FileWorkItem` for each file into a `WorkQueue`; worker threads take items
-- out. An asynchronous worker starts a file with a buffer of its `BufferPool`, and each completion of
-- its ring moves the file's `FileContext` one state further by `advance_state`, which prepares the
-- next request; with splice a file takes a pipe of the `PipePool`. A synchronous worker copies with
-- copy_file_range. `SizeStats` chooses the chunk size from the scanned sizes. Over the network, a
-- sender opens with HELLO and then sends for each file a FILE_HDR message and the file's bytes; a
-- receiver checks the secret and each path and writes the files below its destination.
--
-- The files:
--   Base: names and lemmas that all parts share; Base.Bits for words, Base.Int for results of calls.
--   Protocol (include/protocol.hpp): Codec has the integers and headers, Messages the builders
--   make_*, Layout what they write, Parsers parse_*, RoundTrip the two against each other; SafePath
--   has `is_safe_path` and, beside it, the walk over the steps of a path.
--   Pools (include/common.hpp): BufferPool and PipePool with their Laws, over Slots, the loops that
--   both share, and Owners, who holds what.
--   WorkQueue (include/common.hpp): the methods, and in Fifo all sequences of calls.
--   SizeStats (include/common.hpp): `observe`, `percentile`, `pick_chunk_size`, their Bounds, and Share,
--   where samples are counted instead of sorted.
--   FileCopy (include/common.hpp, src/main.cpp): Types has FileContext, Stats and Config, Advance
--   `advance_state`, Start `start_file`, Kernel the io_uring of one file and what it promises, in terms
--   of Handles, the table of open descriptors; Phases, Copy, Data and Whole follow one copy to its end,
--   Branches and Disturbed take single completions.
--   Worker (src/main.cpp): `worker_thread`, a step for each point at which it calls something. Steps
--   has what else can happen, the kernel's answers and the other workers; Entries, Holdings, Sound,
--   Completion, Turns and Accounts lead up to Whole, what holds from its start to its end.
--   SyncCopy (src/main.cpp): one round of `sync_worker_thread`, whole over the same Handles.
--   Ring (include/ring.hpp): Submission has the requests, Completion the completions.
--   Ktls (include/ktls.hpp): the keys, and in Crossing the two ends.
--   Net (src/net.cpp): Socket has `send_all` and `recv_all`, Framing what they make of a message, and
--   Stream the bytes of a whole run. Handshake has both sides of HELLO, Sender `send_file`, Sender.Run
--   the loop of `run_sender` over it, Sender.Collect `collect_files` and `run_sender` from the
--   authentication on, with Directory, what it finds, and Whole, what it sends; Receiver the loop of
--   `run_receiver`, Confined where it writes, Storing what it writes; Transfer puts the two ends
--   together.
--   Net.AsyncReceiver and Net.AsyncSender (src/net_uring.cpp): the steps of one file;
--   Net.AsyncSender.Loop the loop of `AsyncSender::run`, with Deadlock a state where it
--   is stuck, Net.AsyncReceiver.Loop both loops of `AsyncReceiver::run`, with Rounds, Arriving, Pieces
--   and Storing for a whole transfer, Requests and Confined for where it writes, and Faults. Net.Serving
--   has HELLO on both asynchronous ends and `run_receiver_uring` from the accepted connection on, Copies
--   its whole run.
--   Main (src/main.cpp): Numbers has the numbers of the command line, Network `parse_host_port` and the
--   modes send and recv, with Ports, Sound and Encrypted; Local the options of a local copy,
--   `scan_files`, the phases up to the threads and the exit code, Options the sizes it lets through,
--   Launched what the workers start with and Exit how one of them, run by Worker, makes the program end.
--   Paths: what the code uses of std::filesystem::path.
-- Files named Tests or in a folder Tests, and Pools.PipeTests, have runs at concrete inputs.
--
-- Bytes and characters are numbers, paths and buffers lists of them, and a pointer is a number.
-- Counters and sizes of 64 bits wrap around where the source computes with them. State is passed
-- along: an operation takes the old state and gives the new one. The kernel, the socket and the file
-- system are arguments; what a theorem needs of them is a record of laws, and Tests has instances.
--
-- Loops without a bound in the source take a number of rounds. A round of `send_all`, `recv_all`,
-- `read_and_send`, `receive_data` and `copy_range` fails or moves a byte, so that the number of bytes
-- is enough. The run of a file in FileCopy.Kernel takes two rounds for each byte and five more.
-- `send_each` goes through a list. `receive_files` takes one round for each message, which is one for
-- each file and one for ALL_DONE; what holds of every run is shown for every number of rounds.
-- `process_completions` takes one round for each completion that is ready and one more.
-- `AsyncReceiver::run` takes one round for each wait; with a kernel that answers one request at a time,
-- `rounds_for` counts one for each byte, two more for each file and one for ALL_DONE. The worker has no
-- rounds: it is a step relation, and its theorems hold at every point that it reaches.
-- `collect_files` takes a depth: that of the deepest directory and one more is enough.
-- `splice_to_socket` may be told EAGAIN for ever, and has a result for rounds that ran out.
--
-- Not modelled: the functions that make, connect and accept sockets, which are sequences of system
-- calls; the directory scan of `AsyncSender`, which only asks the file system; what `AsyncSender::run`
-- does behind its last file; what a program does after a payload has run over the end of `meta_buf_`,
-- where a run of the model ends; the start and the join of the threads and the progress loop of `main`;
-- random nonces; and the output. In FileCopy, requests of a file are answered one at a time, in the
-- order in which they were prepared; each file has at most one. `receive_file` in src/net.cpp is a
-- placeholder that nothing calls.
pub mod Base
pub mod Paths
pub mod Protocol
pub mod Pools
pub mod WorkQueue
pub mod Worker
pub mod SizeStats
pub mod FileCopy
pub mod Net
pub mod SyncCopy
pub mod Ktls
pub mod Ring
pub mod Main
