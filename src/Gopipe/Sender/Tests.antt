-- ===== src/Gopipe/Sender/Tests.antt =====
-- A run of the packetizer of gopipe before the spacer.
use mrtp.Prelude.{ℕ, ◌+◌, ◌≡◌, refl, List, [], ◌∷◌, ◌++◌, some, arith}
use mrtp.Prelude.Int.{ℤ, pos}
use mrtp.Logging.Unwrapper.{new_unwrapper}
use mrtp.Gopipe.Codec.{vp8}
use mrtp.Gopipe.Attributes.{Attributes, ok, no_attributes, set_attribute, pts, int64, get_pts}
use mrtp.Gopipe.Pipeline.{Info}
use mrtp.Gopipe.Packetizer.{
  PacketizerFactory, Rtp, RtpPacketizer, link_packetizer, get_packetizer_by_name, marshal_all,
  write_packetizer,
}
use mrtp.Gopipe.Spacer.{FrameSpacer, link_spacer, take_packets, write_all, takes}
use mrtp.Gopipe.Spacer.Order.{all_of, in_hand, IsAlive}
use mrtp.Gopipe.Sender.{
  Frame, Sender, write_frame, SenderSteps, begins, goes_on, writes_frame, runs,
}
use mrtp.Gopipe.Sender.Frames.{all_packets}
use mrtp.Gopipe.Sender.Order.{write_packetizer-run}

-- One packet for each frame, which is its number and the frame.
abbrev numbered : Rtp
numbered = record {
  State = ℕ;
  RtpPacket = List ℕ;
  new_packetizer = λ f p. 7;
  packetize = λ b n st. (st + 1, (st ∷ b) ∷ []);
  marshal = λ p. some p;
  sequence_number = λ p. 0;
  samples = λ d r. 3000;
  period = λ n d. pos 33;
}

abbrev five : ℤ → ℕ → ℤ
five d n = pos 5

abbrev factory : PacketizerFactory
factory = record { mtu = 1200; pt = 96; ssrc = 1; clock_rate = 90000; codec = vp8 }

abbrev info : Info
info = record { width = 640; height = 480; timebase_num = pos 30; timebase_den = pos 1 }

abbrev linked : RtpPacketizer numbered
linked = record {
  factory = factory;
  frame_duration = pos 33;
  packetizer = 7;
  unwrapper = new_unwrapper;
}

abbrev stamped : Attributes
stamped = set_attribute no_attributes pts (int64 (pos 1))

abbrev start : Sender numbered five
start = record { packetizer = linked; spacer = link_spacer (pos 33) }

abbrev written : Sender numbered five
written = write_frame numbered five start (1 ∷ []) stamped

abbrev taken : FrameSpacer
taken =
    take_packets five written.spacer (record { payloads = (7 ∷ 1 ∷ []) ∷ []; attributes = stamped })
      []

abbrev paced : Sender numbered five
paced = record written { spacer = taken }

abbrev one_frame : List Frame
one_frame = (1 ∷ [], stamped) ∷ []

is_linked : link_packetizer numbered factory info ≡ ok linked
unfolding link_packetizer get_packetizer_by_name
is_linked = refl

to_paced : SenderSteps numbered five (start, []) (paced, one_frame)
unfolding write_packetizer marshal_all get_pts write_all take_packets
to_paced = goes_on (goes_on begins (writes_frame (1 ∷ []) stamped (omega arith))) (
    runs (λ ps. takes (record { payloads = (7 ∷ 1 ∷ []) ∷ []; attributes = stamped }) [] refl refl))

is_alive : IsAlive paced.spacer.running
unfolding write_packetizer marshal_all get_pts write_all take_packets
is_alive = tt

write_packetizer-run_example :
    all_packets numbered 3000 7 one_frame
    ≡ paced.spacer.sent ++ in_hand paced.spacer.running ++ all_of paced.spacer.pkt_chan
write_packetizer-run_example =
    write_packetizer-run numbered five factory info linked (pos 33) is_linked paced one_frame
      to_paced is_alive
