-- ===== src/Lib.antt =====
-- quant, a QUIC transport library in C: its sets of packet numbers, wire formats, frames,
-- streams, connection IDs, packet number spaces, flow control, loss recovery, and how connections end.
--
-- How the parts meet: a connection (lib/src/conn.h) has three packet number spaces (lib/src/pn.c),
-- streams (lib/src/stream.c), lists of connection IDs (lib/src/cid.c) and the state of loss recovery
-- (lib/src/recovery.c). A packet number space keeps its sent packets in a hash table and their
-- numbers in a diet (lib/src/diet.c), a set of numbers held as intervals in a splay tree
-- (lib/src/tree.h). Loss recovery moves packets in and out of that table and schedules frames again
-- that were lost; streams report to the connection which control frames they need.
--
-- Which file models what:
--   Marshall, Marshall/*     lib/src/marshall.c, function for function, under the same names
--   Diet/Tree, Diet/Ops      lib/src/diet.h and diet.c; the other files of Diet are lemmas
--   Conn/Packets, Conn/State the records: struct pkt_meta, pn_space, q_stream, recovery, q_conn
--   Conn/Flow                do_conn_fc of lib/src/conn.c, has_wnd and has_pval_wnd of conn.h
--   Conn/Close, Conn/Dcid    err_close, enter_closing and the timers, use_next_dcid of lib/src/conn.c
--   Frame                    the frame types and is_ack_eliciting of lib/src/frame.h
--   Frame/Handled            what a decoder comes to, and its checked reads, of lib/src/frame.c
--   Frame/Limits, Paths      the decoders of lib/src/frame.c, by the kind of frame
--   Frame/Data               dec_stream_or_crypto_frame; its part that places data in a stream is
--                            Stream/Reassembly
--   Frame/AckDec             dec_ack_frame of lib/src/frame.c, on_ack_received_2 of recovery.c
--   Frame/Dispatch           dec_frames of lib/src/frame.c; Leaves, AckLeaves, Takes, Switches and
--                            Ends are lemmas on its loop, Hidden on the types behind padding
--   Pn/Abandon               abandon_pn of lib/src/pn.c
--   Frame/Enc                the encoders of lib/src/frame.c
--   Tp/Params, Dec, Check    chk_tp of lib/src/tls.c: reading the peer's transport parameters
--   Tp/Enc, Init             init_tp of lib/src/tls.c: announcing one's own
--   Pkt/Numbers              packet numbers in enc_pkt and undo_hp of lib/src/pkt.c, without the mask
--   Ack/Ops                  enc_ack_frame of lib/src/frame.c, track_acked_pkts of recovery.c
--   Pn/Sent, Pn/Acks         lib/src/pn.c
--   Stream/*                 lib/src/stream.c and the inline functions of stream.h
--   Recovery/*               lib/src/recovery.c: Congestion (window), Rtt, Timer, Flight (bytes in
--                            flight), Lost (on_pkt_lost), Detect (detect_lost_pkts); Balance, Deemed
--                            and Losing are lemmas
--   Cid/*                    lib/src/cid.c
--   */Runs                   concrete runs
-- Functions that change an object in place return the changed object. Where a function changes a
-- stream and its connection, it returns both. A pointer to a stream is the stream's number, one to a
-- connection ID its position in the array, one to a packet number space its type. Times that
-- `w_now` returns are arguments.
--
-- Bounds: `uint_t` and `uint64_t` have 64 bits and wrap around, which is written out; the host is
-- little-endian. The build has a server and migration, so there are 8 connection IDs a side (CIDS_MAX).
-- A failed `assure` or `ensure`, and `die`, give no result (`none`), as in a build
-- with assertions; the loops of diet_remove_ival, chk_tp and dec_frames take fuel, and `none` is there also that it ran out. A round of the first shrinks
-- the part of the range that is still in the set: fuel for more rounds than there are intervals is
-- enough. A round of the others reads a byte at least: fuel for as many rounds as bytes is enough.
--
-- Parameters: the byte swaps of the network headers (ByteSwap), and the splay tree operations
-- (SplayOps) with what lib/src/tree.h documents of them (IsSplay); Diet/Runs/Rebuild has an instance.
-- Further arguments are what the socket and TLS layers answer (`default_ups`, `w_max`, `hshk_done`),
-- whether the table of reset tokens takes a new one (`srt_new`), and whether there is
-- memory for a copy of a packet (`can_dup`). The
-- units NS_PER_US, NS_PER_MS, NS_PER_S and US_PER_MS come from a library and are taken by name.
--
-- A decoder of frames takes the bytes from behind the type on, and gives back the bytes that are
-- left (`ok`), or the connection after it was closed with an error (`failed`), or it stops the
-- program at a failed check (`died`). The scratch space for the text of an error is taken to be
-- large enough.
--
-- Not modelled: payload bytes and the queues of data to send, ciphers and TLS, sockets and timers
-- as such, logging, the counters of frames, API calls that wait; with the queues, the assertions
-- of do_stream_fc and on_pkt_lost that count them; on_pkt_acked of lib/src/recovery.c and the ECN part of
-- dec_ack_frame, for which AckEnv has two functions that may do anything to a connection;
-- enc_stream_or_crypto_frame of lib/src/frame.c; lib/src/quic.c and most of tls.c, pkt.c and conn.c.
pub mod Base
pub mod Ack
pub mod Cid
pub mod Conn
pub mod Diet
pub mod Frame
pub mod Marshall
pub mod Pkt
pub mod Pn
pub mod Recovery
pub mod Stream
pub mod Tp
