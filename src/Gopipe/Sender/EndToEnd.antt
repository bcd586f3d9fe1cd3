-- ===== src/Gopipe/Sender/EndToEnd.antt =====
-- From the frames that are written to the packetizer of a sender to the frames that the depacketizer of a
-- receiver hands on: gopipe/rtp_packetizer.go, gopipe/frame_spacer.go and gopipe/rtp_depacketizer.go.
use mathlib.Core.List.{map-append}
use mrtp.Prelude.{
  ℕ, ◌≡◌, ◌≢◌, sym, ap, ◌∙◌, ◌<◌, List, [], ◌++◌, map, All, length, append-nil, true, Option,
}
use mrtp.Prelude.Int.{ℤ}
use mrtp.Gopipe.Attributes.{ok}
use mrtp.Gopipe.Pipeline.{Info}
use mrtp.Gopipe.Packetizer.{PacketizerFactory, Rtp, RtpPacketizer, link_packetizer}
use mrtp.Gopipe.Spacer.{idle, link_spacer}
use mrtp.Gopipe.Spacer.Order.{IsAlive, in_hand, all_of}
use mrtp.Gopipe.Sender as Sender
use mrtp.Gopipe.Sender.{SenderSteps}
use mrtp.Gopipe.Sender.Order.{write_packetizer-run}
use mrtp.Gopipe.Sender.Reassembly.{
  packets_of, payloads_of, bytes_of, Cuts, IsSendable, frames_of, frames_of-IsStream,
  frames_of-bytes, all_packets-parse,
}
use mrtp.Gopipe.Depacketizer.{
  Packet, JitterBuffer, Payloads, Depacketizer, EncodedFrame, process_packets, returned,
}
use mrtp.Gopipe.Depacketizer.Loop.{Feeds}
use mrtp.Gopipe.Depacketizer.Frames.{heard, all_pieces, encoded}
use mrtp.Gopipe.Depacketizer.Calls.{process_packets-IsStream}

module _ (R : Rtp) (space : ℤ → ℕ → ℤ) (parse : List ℕ → Option Packet)
    (factory : PacketizerFactory) (i : Info)
    (cuts : Cuts R parse
      (R.samples (R.period i.timebase_num i.timebase_den) factory.clock_rate)) where
  -- What the sender's goroutine has sent, once it is idle and its channel is empty.
  sent-parse :
      (p : RtpPacketizer R) (frame_duration : ℤ)
      → link_packetizer R factory i ≡ ok p
      → (x : Sender.Sender R space) (fs : List Sender.Frame)
      → SenderSteps R space
          (record { packetizer = p; spacer = link_spacer frame_duration }, [])
          (x, fs)
      → x.spacer.running ≡ idle
      → x.spacer.pkt_chan ≡ []
      → All IsSendable fs
      → map parse (payloads_of x.spacer.sent)
        ≡ packets_of (all_pieces (frames_of cuts p.packetizer fs))
  sent-parse p frame_duration linked x fs steps rests empty sendable =
      let n = R.samples (R.period i.timebase_num i.timebase_den) factory.clock_rate in
      let alive : IsAlive x.spacer.running = rw rests tt in
      let run = write_packetizer-run R space factory i p frame_duration linked x fs steps alive in
      let whole : x.spacer.sent ++ in_hand x.spacer.running ++ all_of x.spacer.pkt_chan
          ≡ x.spacer.sent =
        rw (rests, empty, append-nil, append-nil) in
      ap (λ s. map parse (payloads_of s)) (sym (run ∙ whole))
      ∙ all_packets-parse cuts p.packetizer fs sendable

  -- Frames with bytes and time stamps are written to the linked packetizer of a sender, in any order with the steps
  -- of its spacer, whose goroutine is idle in the end with nothing in its channel. Then what was sent
  -- parses to a list of packets in which a depacketizer finds the frames: where the jitter buffer of a
  -- receiver deals out these packets in this order, none missing, and is empty then, the payload parsers
  -- give back the bytes that the payloaders cut, and no packet of the first frame has the time stamp of
  -- the frame before, a call of `processPackets` with more rounds than packets returns, and the bytes
  -- of the frames that it hands on are those that were written, in order. pion's packetizer and
  -- parser of packets must do as `Cuts` lists.
  pub process_packets-sent :
      (J : JitterBuffer) (C : Payloads) (p : RtpPacketizer R) (frame_duration : ℤ)
      → link_packetizer R factory i ≡ ok p
      → (x : Sender.Sender R space) (fs : List Sender.Frame)
      → SenderSteps R space
          (record { packetizer = p; spacer = link_spacer frame_duration }, [])
          (x, fs)
      → x.spacer.running ≡ idle
      → x.spacer.pkt_chan ≡ []
      → All IsSendable fs
      → (clock : ℕ → ℤ) (fuel : ℕ) (d : Depacketizer J C) {s : J.State} {q : C.Parsers}
      → ((b : List ℕ) → (cuts.frame_of p.packetizer b).ts ≢ d.playout_ts)
      → Feeds J C d.codec d.jitter_buffer d.parsers
          (heard (all_pieces (frames_of cuts p.packetizer fs)))
          s
          q
      → J.underrun s ≡ true
      → length (heard (all_pieces (frames_of cuts p.packetizer fs))) < fuel
      → (map parse (payloads_of x.spacer.sent)
          ≡ packets_of (all_pieces (frames_of cuts p.packetizer fs)))
        × ((e : Depacketizer J C) × ((process_packets J C fuel clock d ≡ returned e)
              × (map (λ (f : EncodedFrame). f.bytes) e.frames
                  ≡ map (λ (f : EncodedFrame). f.bytes) d.frames ++ bytes_of fs)))
  process_packets-sent J C p frame_duration linked x fs steps rests empty sendable clock fuel d new
        feeds done enough =
      let st = p.packetizer in
      let stream = frames_of-IsStream cuts d.playout_ts st fs sendable new in
      let (e, runs, frames) =
        process_packets-IsStream J C clock fuel d (frames_of cuts st fs) stream feeds done enough in
      (
        sent-parse p frame_duration linked x fs steps rests empty sendable,
        (
          e,
          (
            runs,
            ap (map (λ (f : EncodedFrame). f.bytes)) frames
                ∙ map-append (λ (f : EncodedFrame). f.bytes) d.frames
                    (map encoded (frames_of cuts st fs))
                ∙ rw (frames_of-bytes cuts st fs sendable),
          ),
        ),
      )
