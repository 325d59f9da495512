-- ===== src/Lib.antt =====
-- A model of the core of PyleIRL, an OBS plugin that receives bonded SRT streams (SRTLA). A phone
-- sends one SRT stream over several links; the receiver puts the links of a sender into a group,
-- forwards the packets of all of them to one SRT socket, and sends what comes back over the links.
-- An OBS source starts a receiver in a thread, plays the forwarded stream through an internal media
-- source, and watches both.
--
-- The parts and the files that model them:
--   Wire        src/srtla/common.h and common.c: packet types, lengths, byte order.
--   Receiver    src/srtla/srtla_rec.c. State has its structs (`conn_t` is Conn, `conn_group_t` is
--               Group, `srtla_ctx_t` is Ctx); Compare is `const_time_cmp`; Groups the searches,
--               `group_create` and `group_destroy`; Register is `group_reg` and `conn_reg`; Ack is
--               `register_packet`; Forward is `handle_srtla_data`; Backward is `handle_srt_data`;
--               Backoff the retry delays of both and of Cleanup, which is `connection_cleanup`;
--               Resolve is `resolve_srt_addr`; MainLoop the loop of `srtla_rec_main`, and Instances
--               its start and end, the table `global_contexts`, and the functions by which other
--               threads read it. Io and Out are what handlers get from the system and give back.
--               System puts the handlers together as steps of one receiver.
--   Source      src/srtla-source.c. Source has `struct srtla_source`; Media the internal media
--               source; Monitor the audio callback and the tick; Playing the queries on the state;
--               Ports and Update are `srtla_source_update`; Recover is
--               `srtla_auto_recover_hung_sources`; Control the stop and reload calls.
--   Rist        src/rist_rec.c: the contexts of the RIST receivers and `rist_stats_cb`. Rist has the
--               structs and the callback; Contexts the table and the queries; Main is
--               `rist_rec_main`, with the answers of librist as arguments.
--   RistSource  src/rist-source.c, the source for RIST, on the same plan as Source: its `shared` is the
--               state that it has in common with that source, `struct srtla_source`.
--   Sender      src/srtla/srtla_send.c, the other end: it takes the stream of an SRT caller and
--               spreads it over links to the receiver. State has `conn_t` (Link) and the globals;
--               Log the circular buffer of packets in flight; Select `select_conn` and
--               `handle_srt_data`; Acks and Naks what acknowledgements and loss reports do; Packets
--               is `handle_srtla_data`; Sockets and Conns are the links' sockets and their list;
--               Housekeeping is `connection_housekeeping`; MainLoop a round of the loop of `main`.
--   Text        the texts that these files write with `snprintf`: the buffer, the numbers, the formats of
--               groups and connections. Details of Receiver and of Rist and Receivers of the two
--               sources write the JSON texts for the web server.
--   Base        what all of these share: Boolean tests, indexed lists, signed counters, bits.
-- The modules below a part have its theorems, named for what they are about; Tests have runs at
-- fixed inputs.
--
-- How the code is modelled. Handlers are functions from the context to the context. Each call of the
-- operating system that has an effect outside is appended to the context's list of calls; each
-- answer of the system (a failed send, memory, random bytes, the clock) is an argument. A linked
-- list is a list; a pointer into it is an index; the address of a group struct is kept as `node`,
-- since the epoll set names groups by it, and its use after `free` is a fault (`none`). `int`,
-- `char` and `uint64_t` arithmetic is written out where it can wrap; `time_t` is a natural number,
-- and so are ports. A rate in Hz, a `double` in the code, is an exact fraction. Functions that run
-- under a mutex are one step each. The receiver and a source meet in the table of the instances.
--
-- Loops run over the lists that they run over in the code. The wait for an answer in Resolve has the
-- 20 rounds of 50 ms that make up its second. The search for a port in Ports is on fuel: one more
-- round than there are other sources, since each round that goes on passes a port that one of them
-- has. The searches in the log of a link of the sender are on fuel as well, 256 rounds, the size of
-- the log. The loop over a range of a loss report is on fuel too, one more test than the range has
-- packets, since each test but the last passes one of them; a loop that needs more is `none`.
--
-- Not modelled: logs; the quality metric (floating point) and the statistics that are read out of
-- log lines; what OBS does with sources and settings; librist;
-- the start of `main` in src/srtla/srtla_send.c; src/srtla-stats-filter.c; the C++ code of the web
-- server and the dialogs. Of the JSON texts, the texts of floating point numbers and of addresses
-- (`inet_ntop`) are passed in, and so is what each call of `srtla_get_external_stats` answers.
pub mod Base
pub mod Wire
pub mod Text
pub mod Receiver
pub mod Source
pub mod Rist
pub mod RistSource
pub mod Sender
