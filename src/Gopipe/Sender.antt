-- ===== src/Gopipe/Sender.antt =====
-- gopipe/rtp_packetizer.go linked to gopipe/frame_spacer.go, as subcmd/send_go.go chains them: frames
-- become packets in one goroutine, and the spacer's goroutine sends the packets on.
mod Tests
pub mod Frames
pub mod Order
pub mod Reassembly
pub mod EndToEnd
mod EndToEndTests
use mrtp.Prelude.{ℕ, ◌<◌, List, [], ◌∷◌, ◌++◌, length}
use mrtp.Prelude.Int.{ℤ}
use mrtp.Gopipe.Attributes.{Attributes, Result, ok}
use mrtp.Gopipe.Pipeline.{MultiSink}
use mrtp.Gopipe.Packetizer.{Rtp, RtpPacketizer, multi, write_packetizer}
use mrtp.Gopipe.Spacer.{Packets, FrameSpacer, capacity, write_all, Step}

abbrev pub Frame : Type 0
Frame = List ℕ × Attributes

module _ (R : Rtp) (space : ℤ → ℕ → ℤ) where
  pub record Sender : Type 0 where
    pub packetizer : RtpPacketizer R
    pub spacer : FrameSpacer

  -- `WriteAll` of the spacer, as the packetizer calls it.
  abbrev pub spacer_sink : MultiSink FrameSpacer
  spacer_sink pkts attr s =
      (write_all space s (record { payloads = pkts; attributes = attr }), ok tt)

  abbrev pub write_frame : Sender → List ℕ → Attributes → Sender
  write_frame x b a =
      let y = (write_packetizer R (multi spacer_sink) b a (x.packetizer, x.spacer)).0 in
      record { packetizer = y.0; spacer = y.1 }

  -- A frame is written when the spacer's channel has room for its packets; a step of the spacer's
  -- goroutine is one that leaves what was written to the channel.
  pub data SenderStep : Sender × List Frame → Sender × List Frame → Type 0 where
    writes_frame :
        {x : Sender} {fs : List Frame} (b : List ℕ) (a : Attributes)
        → length x.spacer.pkt_chan < capacity
        → SenderStep (x, fs) (write_frame x b a, fs ++ (b, a) ∷ [])
    runs :
        {x : Sender} {fs : List Frame} {s : FrameSpacer}
        → ((ps : List Packets) → Step space (x.spacer, ps) (s, ps))
        → SenderStep (x, fs) (record x { spacer = s }, fs)

  pub data SenderSteps : Sender × List Frame → Sender × List Frame → Type 0 where
    begins : {x : Sender × List Frame} → SenderSteps x x
    goes_on : {x y z : Sender × List Frame} → SenderSteps x y → SenderStep y z → SenderSteps x z
