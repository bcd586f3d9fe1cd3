-- ===== src/Gopipe/Sender/Order.antt =====
-- What the packetizer and the spacer of gopipe send of the frames that are written.
use mrtp.Prelude.{
  length, ◌<◌, ℕ, ◌≡◌, refl, sym, ap, ◌∙◌, List, [], ◌∷◌, ◌++◌, append-nil, inl, inr,
}
use mrtp.Prelude.Int.{ℤ}
use mrtp.Gopipe.Attributes.{Attributes, ok}
use mrtp.Gopipe.Pipeline.{Info}
use mrtp.Gopipe.Packetizer.{PacketizerFactory, Rtp, RtpPacketizer, link_packetizer}
use mrtp.Gopipe.Spacer.{Packets, each_with, capacity, link_spacer, writes, Steps, here, later}
use mrtp.Gopipe.Spacer.Order.{all_of, all_of-append, in_hand, IsAlive, run_order}
use mrtp.Gopipe.Sender.{
  Frame, Sender, write_frame, SenderStep, writes_frame, runs, SenderSteps, begins, goes_on,
}
use mrtp.Gopipe.Sender.Frames.{
  after_frames, all_packets, frame_packets, frame_samples, link_packetizer-samples,
  write_packetizer-Written, after_frames-append, all_packets-append,
}

module _ (R : Rtp) (space : ℤ → ℕ → ℤ) where
  module _ (frame_duration : ℤ) (n : ℕ) (st : R.State) where
    record Inv (x : Sender R space × List Frame) : Type 0 where
      frames : List Packets
      steps : Steps space (link_spacer frame_duration, []) (x.0.spacer, frames)
      packets : all_of frames ≡ all_packets R n st x.1
      state : x.0.packetizer.packetizer ≡ after_frames R n st x.1
      settings : frame_samples R x.0.packetizer ≡ n

    writes_frame-Inv :
        (x : Sender R space) (fs : List Frame) (b : List ℕ) (a : Attributes)
        → length x.spacer.pkt_chan < capacity
        → Inv (x, fs)
        → Inv (write_frame R space x b a, fs ++ (b, a) ∷ [])
    writes_frame-Inv x fs b a room i =
        let w = write_packetizer-Written R space x.packetizer x.spacer b a in
        let state = w.state ∙ rw (i.settings, i.state, after_frames-append R n st fs b a) in
        let settings = w.settings ∙ i.settings in
        let all_sent = all_packets R n st fs in
        let all_and : (f : Packets)
            → all_of i.frames ++ (each_with f.payloads f.attributes ++ [])
              ≡ all_sent ++ each_with f.payloads f.attributes =
          λ f. rw (append-nil, i.packets) in
        let frame_sent : frame_packets R (R.packetize b n (after_frames R n st fs)).1 a
            ≡ frame_packets R
                (R.packetize b (frame_samples R x.packetizer) x.packetizer.packetizer).1 a =
          rw (i.settings, i.state) in
        elim w.given [
          | inl (same, none_sent) ↦ record {
            frames = i.frames;
            steps = rw same i.steps;
            packets =
                i.packets
                ∙ sym (append-nil all_sent)
                ∙ ap (λ q. all_sent ++ q) (sym (frame_sent ∙ none_sent))
                ∙ sym (all_packets-append R n st fs b a);
            state = state;
            settings = settings;
          }
          | inr (f, (grown, sent)) ↦ record {
            frames = i.frames ++ f ∷ [];
            steps = rw grown (later i.steps (writes f room));
            packets =
                all_of-append i.frames (f ∷ [])
                ∙ all_and f
                ∙ ap (λ q. all_sent ++ q) (sym (frame_sent ∙ sent))
                ∙ sym (all_packets-append R n st fs b a);
            state = state;
            settings = settings;
          }
        ]

    SenderStep-Inv : (x y : Sender R space × List Frame) → SenderStep R space x y → Inv x → Inv y
    SenderStep-Inv x y (writes_frame {x = z} {fs = fs} b a room) i =
        writes_frame-Inv z fs b a room i
    SenderStep-Inv x y (runs {x = z} {fs = fs} step) i = record {
      frames = i.frames;
      steps = later i.steps (step i.frames);
      packets = i.packets;
      state = i.state;
      settings = i.settings;
    }

    SenderSteps-Inv : (x y : Sender R space × List Frame) → SenderSteps R space x y → Inv x → Inv y
    SenderSteps-Inv x y begins i = i
    SenderSteps-Inv x y (goes_on {y = z} steps step) i =
        SenderStep-Inv z y step (SenderSteps-Inv x z steps i)

  -- Whatever the order in which frames are written to a linked packetizer and the steps of the linked
  -- spacer's goroutine are taken: as long as the goroutine has neither returned nor panicked, the
  -- marshaled packets of all frames (of a frame without a time stamp, or one of whose packets cannot be
  -- marshaled, none), in the order of the frames, each with the frame's attributes and once, are those
  -- that the spacer has sent on, those it has in hand and those that wait in its channel.
  pub write_packetizer-run :
      (factory : PacketizerFactory) (i : Info) (p : RtpPacketizer R) (frame_duration : ℤ)
      → link_packetizer R factory i ≡ ok p
      → (x : Sender R space) (fs : List Frame)
      → SenderSteps R space
          (record { packetizer = p; spacer = link_spacer frame_duration }, [])
          (x, fs)
      → IsAlive x.spacer.running
      → all_packets R
          (R.samples (R.period i.timebase_num i.timebase_den) factory.clock_rate)
          p.packetizer
          fs
        ≡ x.spacer.sent ++ in_hand x.spacer.running ++ all_of x.spacer.pkt_chan
  write_packetizer-run factory i p frame_duration linked x fs steps alive =
      let n = R.samples (R.period i.timebase_num i.timebase_den) factory.clock_rate in
      let start : Sender R space = record { packetizer = p; spacer = link_spacer frame_duration } in
      let at_start : Inv frame_duration n p.packetizer (start, []) = record {
        frames = [];
        steps = here;
        packets = refl;
        state = refl;
        settings = link_packetizer-samples R factory i p linked;
      } in
      let inv = SenderSteps-Inv frame_duration n p.packetizer (start, []) (x, fs) steps at_start in
      sym inv.packets ∙ run_order space frame_duration x.spacer inv.frames inv.steps alive
