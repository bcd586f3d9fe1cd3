-- ===== src/Lib.antt =====
-- A model of the core of mrtp, a program that sends and receives real-time media over QUIC, RTP over
-- QUIC, WebRTC and Media over QUIC with congestion control.
--
-- The parts and their files:
--   * Quic.Feedback is internal/quictransport/transport.go: the record `Transport` keeps the packets in
--     flight, the feedback that is not reported yet, the window between `lowestInFlight` and
--     `highestAcked`, and what was told to the bandwidth estimator, to the source and to the pacer.
--     `packet_sent`, `packet_lost`, `packet_acked`, `update_ecn_counts_of`, `update_bwe` and
--     `update_congestion_control` are `packetSent`, `packetLost`, `packetAcked`, `updateECNCounts`,
--     `updateBWE` and `updateCongestionControl`.
--   * Quic.Tracer is `record` of internal/quictransport/tracer.go: it takes an event of the QUIC stack
--     to calls of Quic.Feedback. A history of a connection is a list of such events (Quic.Tracer.Runs).
--   * Quic.PacketEvents is internal/quictransport/packetEvents.go: `marshal` and `unmarshal_feedback`
--     are `Marshal` and `UnmarshalFeedback`.
--   * Logging.Unwrapper is internal/logging/unwrapper.go, 16-bit sequence numbers made whole again.
--   * Gopipe.Depacketizer is the type `rtpDepacketizer` of gopipe/rtp_depacketizer.go, which takes RTP
--     packets from a jitter buffer and makes frames of them; `process_packets` is `processPackets`. The element
--     `RTPDepacketizer` around it is Gopipe.Depacketizer.Element.
--   * Datachannels.Transport is datachannels/transport.go: callers of `AddDataChannelReceiver` and
--     `onIncomingDataChannel` that share a mutex and the map from ids to channels and meet on these, as a step
--     relation.
--   * Webrtc.Signaling is the part of webrtc/transport.go between the peer connection and the signaler
--     (`onNegotiationNeeded`, `onICECandidate`, `HandleSessionDescription`), Webrtc.Ccfb its `onCCFB`,
--     which gives reports to the same bandwidth estimators as Quic.Feedback does.
--   * Webrtc.HttpSignaling is webrtc/http_client.go (`post`, `send`) and webrtc/http_signaling_handler.go with the
--     routes of subcmd/webrtc.go (`route`). In Webrtc.HttpSignaling.Peers two transports post to each other, as a
--     step relation; what each of them keeps is in the files Offerer and Answerer beside it.
--   * Webrtc.DcSender is webrtc/dc_sender.go: `sendLoop`, the callers of `Write` and the buffer of the data channel
--     as a step relation.
--   * Webrtc.Net is the ECN bits of received packets: `ReadFrom` of webrtc/conn.go, `setECN` and `getECN` of
--     webrtc/net.go, and webrtc/mux.go.
--   * Pubsub.Channel is internal/pubsub (channel.go, stream.go, subscriber.go, publisher.go): topics, their
--     goroutines and the bounded queues of subscribers. Pubsub.Channel.Reach has every order of calls.
--   * Moq.Transport is moq/transport.go (`AddTrack`, `handleSubscription`), moq/namespace.go and
--     moq/local_track.go (`subscribe`, `Write`, `Close`).
--   * Gopipe.Attributes, Gopipe.Pipeline, Gopipe.Packetizer, Gopipe.Coders and Gopipe.Codec are gopipe/attribute.go,
--     gopipe/pipeline.go, gopipe/rtp_packetizer.go, gopipe/encoder.go with gopipe/decoder.go, and
--     gopipe/codec/codec_type.go. A sink is a function on the state that it and all sinks after it keep.
--   * Gopipe.Spacer is gopipe/frame_spacer.go: `run`, the callers of `WriteAll` and the end of the context as a
--     step relation. `take_packets` is what `run` does with a frame it receives, `tick` what it does at a tick.
--   * Gopipe.Sender is the packetizer linked to the spacer, as subcmd/send_go.go chains them: frames are written
--     while the spacer's goroutine runs. Gopipe.Sender.EndToEnd joins it to a receiver's depacketizer.
--   * Gopipe.FakeSource is gopipe/fake.go, `StartLive` over a list of the events that its `select` meets;
--     Gopipe.Y4mSource, Gopipe.Y4mSink and Gopipe.IvfDataSource are the files of these names in gopipe.
--   * Data.Bin and Data.Source are data/source.go (`startFileSource`, `startRandomSource`), Data.Chunks its
--     `startChunkSource` with the goroutines in any order, Data.Run its `Run`, Data.Sink is data/sink.go, Data.Bytes the eight bytes
--     of a size. Data.Transfer has the file source and the sink together.
--   * Bwe is bwe.go: what the adapters `Nada` and `GCC` do with the calls that Quic.Feedback and Webrtc.Ccfb make.
--   * Datachannels.Wrappers is datachannels/sender.go and datachannels/receiver.go.
--   * Quic.Connection is the rest of internal/quictransport/transport.go: options, `New`, `Close`, `receiveUniStreams`
--     and `receiveDatagrams`. Roq is roq/sender.go, roq/receiver.go and the choice that subcmd/send_go.go makes
--     between RTP over QUIC and data channels for a stream.
--   * Gstreamer.RtpBin is gstreamer/rtpbin.go: the maps of `RTPBin` and the calls of GStreamer that its operations
--     make, in any order of operations (`run`). Gstreamer.RtpBin.Growth and Runs have what no operation takes
--     back, Paths, Routes and Scream where data goes in the graph.
--   * Web.Vite is internal/web/vite.go: the manifest of vite and `importedChunks`.
--   * Http.Server is http/server.go: options, `NewServer` and the handlers.
--   * Slices has the functions of Go's package slices that these use, Prelude the shared names, and the
--     modules called Tests the concrete runs.
--
-- Sequence numbers and sizes are natural numbers, with the wrap-around of `uint64` and `uint16` written
-- out; times are integers, in nanoseconds. The loop of `processPackets` runs on fuel, one unit for each
-- round; a unit more than the entries that the jitter buffer still has to deal out is meant to be enough.
-- The loops of the data source and sink run on fuel as well: a unit more than the file has bytes, or than the
-- chunks and their blocks are, is meant to be enough. The recursion of `importedChunks` is nested no deeper than
-- the manifest has imports, which is its fuel. The other loops are over lists: of ticks, of events, or of
-- what comes in. The code under locks is taken as atomic, but in Datachannels.Transport,
-- where the mutex is part of the state. Where a Go map is walked, the model walks a list, in one order.
--
-- Parameters are net/http's client, encoding/json, whether a call of GStreamer succeeds, quicvarint, the peer connection and the signaler, quicdc's data channels, pion's jitter
-- buffer and payload depacketizers, moqtransport's publishers, the C codecs, pion's packetizer, the readers of Y4M and IVF, the files and
-- writers, net and tls, the estimator's target rate, the pacing factor, and what the code computes in
-- floating point. Not modelled are the input and output, the set-up of connections, the bindings to C libraries,
-- GStreamer's elements with their properties, and the command line.
pub mod Prelude
pub mod Slices
pub mod Quic
pub mod Logging
pub mod Gopipe
pub mod Data
pub mod Datachannels
pub mod Http
pub mod Bwe
pub mod Roq
pub mod Webrtc
pub mod Pubsub
pub mod Moq
pub mod Web
pub mod Gstreamer
