-- ===== src/Lib.antt =====
-- Verification of the SOJ CivicLight miner, a stratum miner for the civiclight algorithm.
--
-- The program reads jobs from a pool over the stratum protocol (soj_stratum_transport.c,
-- soj_stratum_methods.c), turns each into a block header and a target (soj.c, soj_work.c), hashes the
-- header with one nonce after another in the mining threads (algo/civiclight/civiclight.c), and
-- sends the nonces whose hash is at most the target back to the pool. Threads pass commands to each
-- other through a queue (soj_queue.c).
--
-- The files, with the code that each models:
--
-- Hex.antt and its children: the hexadecimal functions of util.c, `bin2hex`, `abin2hex`, `bebin2hex`
-- and `hex2bin`. Hex/Spec.antt is the independent description of a decoded string.
-- Target.antt: `valid_hash` of util.c.
-- Sha.antt: the streaming interface of algo/sha/sha256-hash.c. Sha/Spec.antt describes a digest by
-- the padded message.
-- Pow.antt: the hash functions of algo/civiclight/civiclight.c.
-- Scan.antt: `scanhash_civiclight` of the same file, on Pow.antt and Target.antt. Scan/Loop.antt has
-- `shares`, the independent description of what a scan submits.
-- Queue.antt: the ring of elist.h in memory and the thread queue of soj_queue.c. Queue/Refine.antt has
-- `Fifo`, the list that the queue implements.
-- Line.antt: the lines of a connection in soj_stratum_transport.c, `send_line`, `stratum_recv_line`
-- and `stratum_disconnect`.
-- Reauth.antt: `stratum_reauthenticate` of the same file, on the connection of Line.antt.
-- Jobs.antt: the division of the nonces among the threads in soj_work.c and soj.c.
-- Notify.antt: `stratum_notify` of soj_stratum_methods.c, which takes a job from mining.notify.
-- Header.antt: the Merkle root, the header of a work and the text of a submission, in soj_protocol.c,
-- soj.c, soj_work.c and algo/sha/sha256d.c, on Sha.antt, Hex.antt and the job of Notify.antt.
-- Header/Layout.antt states the header as bytes, as Scan.antt hashes them.
-- Submit.antt: the way of a solution to the pool in soj.c, from `submit_solution` over the I/O thread
-- `workio_thread`, with the threads interleaved.
-- Response.antt: `stratum_handle_response` of soj.c, on the renewal of the session in Reauth.antt.
-- Handshake.antt: `stratum_subscribe` and `stratum_parse_extranonce` of soj_stratum_transport.c, on the
-- connection of Line.antt.
-- Methods.antt: `stratum_handle_method` and the handlers of soj_stratum_methods.c, on Notify.antt and
-- Handshake.antt.
-- Authorize.antt: `stratum_authorize` of soj_stratum_transport.c, on Methods.antt.
-- Json.antt: what these parts call of jansson.
-- Extranonce.antt: the step of the second extranonce in `stratum_gen_work` of soj.c.
-- Backoff.antt: `activate_protection_backoff` and `enforce_backoff_wait_if_needed` of util.c, and
-- `restart_threads` of soj.c.
-- Transfer.antt: the buffer for the body of an HTTP answer, `all_data_cb` of util.c.
-- Prelude.antt: tests on numbers, lists by native numbers, and the laws of the bitwise operations.
--
-- Conventions. A C string is the list of its bytes before the NUL, and a buffer is the list of its
-- bytes. A machine word is a natural number with its wrap-around written out. What the allocator and
-- uninitialised memory hold are arguments. What other threads or the network do is an explicit list
-- of events, and the theorems hold for every such list.
--
-- Parameters. The compression of a SHA-256 block (processor intrinsics), yespower (a copy of another
-- project), `calloc`, `realloc`, curl, jansson, `strtoul` and the restart flag. The two-way
-- compression and the two-way yespower are taken to be two one-way calls; `calloc` gives a block that
-- is not NULL and not in use, if any. The `realloc` of the receive buffer and the `malloc` of the
-- Merkle branches, whose results the code does not test, are taken to give a block.
--
-- Fuel. The loops of a scan take `last_nonce` as fuel, and each turn raises the nonce. `tq_free`
-- takes fuel for the entries of the queue, and its theorem asks for no more. A wait takes one unit
-- for each turn; the seconds up to the last pause that it can read, and one more, are proved to be
-- enough.
--
-- Not modelled: the connection by curl, the loop of the stratum thread, work without a stratum, the
-- command line, logging, signals, HTTP but for the buffer of a body, difficulties and statistics in
-- floating point, and the code copied from other projects.
pub mod Authorize
pub mod Backoff
pub mod Extranonce
pub mod Handshake
pub mod Header
pub mod Hex
pub mod Jobs
pub mod Json
pub mod Line
pub mod Methods
pub mod Notify
pub mod Pow
pub mod Prelude
pub mod Queue
pub mod Reauth
pub mod Response
pub mod Scan
pub mod Sha
pub mod Submit
pub mod Target
pub mod Transfer
