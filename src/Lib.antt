-- ===== src/Lib.antt =====
-- A model of net-lib, the network library of include/pfs/netty, and its correctness.
--
-- A node of the mesh network (patterns/meshnet/node.hpp in that folder) owns pools of sockets. The
-- listener pool and the connecting pool give it new sockets, which go to the socket pool, the reader pool
-- and the input processor. The handshake decides which socket serves which neighbour, and the heartbeat
-- which socket is lost. A message goes down through the writer pool, which keeps an output queue for each
-- socket and cuts frames off its front; what a socket receives goes up through the reader pool and the
-- input processor, which puts frames and packets together again. Apart from the mesh, the peer-to-peer
-- engines (p2p) cut messages and files into packets for a channel of two sockets, one to read and one to
-- write. Every pool marks what it removes and
-- removes it at the end of a step.
--
-- The modules, with the files below include/pfs/netty:
--
--   Prelude         lists, tests, byte arithmetic, maps, and faults as values: `undefined` for undefined
--                   behaviour of C++, `terminated` for PFS__TERMINATE, `unexpected_data` for the
--                   exception of that name, `out_of_fuel` where a loop of the model had too few rounds.
--                   `TimeSet` is a std::set ordered by time.
--   Net.QueueOps    what writer_pool.hpp calls on its `WriterQueue` parameter, and the laws of a byte
--                   stream that the proofs on the pool use.
--   Net.WriterQueue writer_queue.hpp: enqueue, empty, frame, shift. `Stream` has the laws, `Ops` fills
--                   the interface.
--   Net.WriterPool  writer_pool.hpp and send_result.hpp: add, enqueue, send (as send_account, send_pass
--                   and send_passes), remove_later, apply_remove, step. `Send` is one turn of the loop,
--                   `Pass` a pass, `Queueing` and `History` sequences of calls.
--   Net.ReaderPool  reader_pool.hpp: add, the poller's events with the reading loop, apply_remove.
--                   `Reading` is what is delivered, `Accounts` the map.
--   Net.SocketPool  socket_pool.hpp: add, locate, remove_later, apply_remove, count. `Slots` has
--                   well-formed pools, `Changes` additions, `Removal` removals.
--   Net.ConnectingPool  connecting_pool.hpp and conn_status.hpp: connect, connect_timeout, step, the
--                   poller's events, apply_remove. `Deferred` is the deferred connections, `Pending` the
--                   connecting sockets.
--   Net.ListenerPool  listener_pool.hpp: add, listen, the poller's events, apply_remove.
--
-- and below include/pfs/netty/patterns/meshnet:
--
--   Meshnet.PriorityFrame  priority_frame.hpp: serialize and parse.
--   Meshnet.PriorityQueue  priority_writer_queue.hpp: enqueue, frame, shift.
--   Meshnet.PriorityInput  priority_input_processor.hpp with the loop of basic_input_processor.hpp.
--   Meshnet.Protocol  protocol.hpp: the fields of a packet header, and that of a handshake packet.
--   Meshnet.Handshake  basic_handshake.hpp, exclusive_handshake.hpp, handshake_result.hpp: start, cancel,
--                   process, step. `Exchange` is two nodes, `Expiry` the time limits.
--   Meshnet.Heartbeat  simple_heartbeat.hpp: add, remove, process, step. `Sending` and `Limits` are the
--                   two halves of a step.
--   Meshnet.Channels  node.hpp: readers and writers, on_completed, send, close_socket and close_channel.
--                   `Lookup` has well-formed maps, `Opening`, `Closing` and `Messages` what becomes of a
--                   channel.
-- and below include/pfs/netty/p2p:
--
--   P2p.Packet      packet.hpp: packets, and enqueue_packets; `Parts` is what the packets of a message are.
--   P2p.Serializer  primal_serializer.hpp: a packet as bytes, over binary streams that are a parameter.
--                   `RoundTrip` has the laws, `LittleEndian` a stream that keeps what the parameter
--                   promises.
--   P2p.Delivery    delivery_engine.hpp: accounts, channels and queues; `Input` is process_reader_input,
--                   `Output` send_outgoing_packets, `Step` the callbacks of the pollers and step.
--                   `Input.Conversation` takes messages from one engine to another, by way of `Input.Stream`
--                   (packets), `Input.Messages` (their messages) and `Input.Chunks` (reads and calls).
--                   `Output.Sending` is what is sent, `Channels` when a channel is reported.
--   P2p.FileTransporter  file_transporter.hpp: options, pools, send_file, stop_file, request_chunk, step and
--                   the loss of peers; `Incoming` the packets about files and what is kept on disk. `Rounds`,
--                   `Receiving` and `Transfer` are a transfer chunk by chunk, `Protocol` a whole one, `Pools`
--                   the loss of peers, `Targets` the names of files, `Corrupted` chunks that cannot be read.
--   P2p.ReliableDelivery  reliable_delivery_engine.hpp and simple_envelope.hpp: envelopes over a storage and an
--                   engine that are parameters. `Order` is the order in which payloads are accepted, in
--                   terms of `Deliveries`; `Acknowledgement` and `Retransmission` are two engines with a queue
--                   between them.
--
-- State is passed explicitly, each class as a record and each method as a function of it. An
-- unordered_map is an association list in the order of iteration; calls of sockets, pollers and callbacks
-- are arguments for what they answer and a log for what they are told. std::uint64_t counters wrap at
-- 2 ^ 64 and the payload size of a frame at 2 ^ 16, as written. Clock readings are arguments. The frame
-- loop has as much fuel as the intermediate buffer has bytes, and one more: each round takes a header at
-- least. The loop over the packets of a buffer has as much fuel as it has bytes, and one more, and the
-- loop over deferred connections as there are such, and one more. The loop over input packets has as
-- much fuel as there are bytes, and so has the loop that cuts a message; all other loops follow a list.
-- A file that is open for reading does not change.
--
-- Not modelled: the sockets and pollers (system calls, ENet, UDT), the deserializer of common-lib (a
-- parameter), what the node makes of a packet, the steps of the whole node, the writer pool's stopwatch
-- (its passes are as many as the caller says), addresses, logging and error texts, the discovery of peers,
-- and the older engine of p2p/engine.hpp.
pub mod Meshnet
pub mod Net
pub mod P2p
pub mod Prelude
