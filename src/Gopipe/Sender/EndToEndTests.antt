-- ===== src/Gopipe/Sender/EndToEndTests.antt =====
-- A frame from a sender to a receiver of gopipe.
use mrtp.Prelude.{
  ℕ, ◌+◌, ◌≡◌, refl, List, [], ◌∷◌, ◌++◌, map, append-nil, Bool, true, false, Option, none, some,
  arith,
}
use mrtp.Prelude.Int.{ℤ, pos}
use mrtp.Logging.Unwrapper.{new_unwrapper}
use mrtp.Gopipe.Codec.{vp8, fake}
use mrtp.Gopipe.Attributes.{Attributes, ok, no_attributes, set_attribute, pts, int64, get_pts}
use mrtp.Gopipe.Pipeline.{Info}
use mrtp.Gopipe.Packetizer.{
  PacketizerFactory, Rtp, RtpPacketizer, link_packetizer, get_packetizer_by_name, marshal_all,
  write_packetizer,
}
use mrtp.Gopipe.Spacer.{
  Packets, FrameSpacer, idle, link_spacer, take_packets, tick, write_all, takes, ticks,
}
use mrtp.Gopipe.Sender as Sender
use mrtp.Gopipe.Sender.{write_frame, SenderSteps, begins, goes_on, writes_frame, runs}
use mrtp.Gopipe.Sender.Reassembly.{packets_of, payloads_of, Cuts, frames_of}
use mrtp.Gopipe.Sender.EndToEnd.{process_packets-sent}
use mrtp.Gopipe.Depacketizer.{
  Packet, JitterBuffer, Payloads, Popped, packet, not_found, Depacketizer, EncodedFrame,
  process_packets, returned, unmarshal,
}
use mrtp.Gopipe.Depacketizer.Loop.{Feeds, ends, pops}
use mrtp.Gopipe.Depacketizer.Frames.{heard, all_pieces}

-- One packet for each frame, with the number of the frame as its time stamp.
abbrev numbered_packet : ℕ → List ℕ → Packet
numbered_packet n b = record { sequence_number = n; timestamp = n; marker = true; payload = b }

abbrev whole_frames : Rtp
whole_frames = record {
  State = ℕ;
  RtpPacket = Packet;
  new_packetizer = λ f p. 7;
  packetize = λ b n st. (st + 1, numbered_packet st b ∷ []);
  marshal = λ p. some (p.timestamp ∷ p.payload);
  sequence_number = λ p. p.sequence_number;
  samples = λ d r. 3000;
  period = λ n d. pos 33;
}

abbrev parse : List ℕ → Option Packet
parse [] = none
parse (n ∷ b) = some (numbered_packet n b)

abbrev cuts : Cuts whole_frames parse 3000
cuts = record {
  frame_of = λ st b. record {
    ts = st;
    body = [];
    last = record { packet = numbered_packet st b; bytes = b };
  };
  buffers = λ st b. (st ∷ b) ∷ [];
  marshals = λ st b filled. refl;
  parses = λ st b filled. refl;
  whole = λ st b filled. append-nil b;
  body = λ st b. tt;
  end_marked = λ st b. (refl, refl);
  next_ts = λ st b c filled e. omega (arith, e);
}

abbrev pop_first : List Packet → List Packet × Popped
pop_first [] = ([], not_found)
pop_first (p ∷ ps) = (ps, packet p)

abbrev is_nil : List Packet → Bool
is_nil [] = true
is_nil (p ∷ ps) = false

abbrev queue : JitterBuffer
queue = record {
  State = List Packet;
  push = λ p ps. ps ++ p ∷ [];
  underrun = is_nil;
  pop = pop_first;
  playout_head = λ ps. 0;
  set_playout_head = λ n ps. ps;
}

abbrev no_parsers : Payloads
no_parsers = record {
  Parsers = Unit {0};
  new_parsers = tt;
  unmarshal_vp8 = λ b p. (p, some b);
  unmarshal_vp9 = λ b p. (p, some b);
  unmarshal_h264 = λ b p. (p, some b);
}

abbrev receiver : Depacketizer queue no_parsers
receiver = record {
  jitter_buffer = numbered_packet 7 (1 ∷ 2 ∷ []) ∷ [];
  frame_buffer = [];
  trigger = true;
  missed_packet_time = none;
  fast_skip = false;
  playout_ts = 0;
  codec = fake;
  max_timeout = pos 100;
  current_timeout = pos 100;
  parsers = tt;
  unwrapper = new_unwrapper;
  frames = [];
}

abbrev five : ℤ → ℕ → ℤ
five d n = pos 5

abbrev factory : PacketizerFactory
factory = record { mtu = 1200; pt = 96; ssrc = 1; clock_rate = 90000; codec = vp8 }

abbrev info : Info
info = record { width = 640; height = 480; timebase_num = pos 30; timebase_den = pos 1 }

abbrev linked : RtpPacketizer whole_frames
linked = record {
  factory = factory;
  frame_duration = pos 33;
  packetizer = 7;
  unwrapper = new_unwrapper;
}

abbrev stamped : Attributes
stamped = set_attribute no_attributes pts (int64 (pos 1))

abbrev start : Sender.Sender whole_frames five
start = record { packetizer = linked; spacer = link_spacer (pos 33) }

abbrev written : Sender.Sender whole_frames five
written = write_frame whole_frames five start (1 ∷ 2 ∷ []) stamped

abbrev one_packet : Packets
one_packet = record { payloads = (7 ∷ 1 ∷ 2 ∷ []) ∷ []; attributes = stamped }

abbrev no_packet : Packets
no_packet = record { payloads = []; attributes = stamped }

abbrev sent : FrameSpacer
sent = tick five (take_packets five written.spacer one_packet []) one_packet

abbrev rested : Sender.Sender whole_frames five
rested = record written { spacer = tick five sent no_packet }

abbrev one_frame : List Sender.Frame
one_frame = (1 ∷ 2 ∷ [], stamped) ∷ []

is_linked : link_packetizer whole_frames factory info ≡ ok linked
unfolding link_packetizer get_packetizer_by_name
is_linked = refl

to_rested : SenderSteps whole_frames five (start, []) (rested, one_frame)
unfolding write_packetizer marshal_all get_pts write_all take_packets tick
to_rested =
    goes_on
      (goes_on
        (goes_on (goes_on begins (writes_frame (1 ∷ 2 ∷ []) stamped (omega arith)))
          (runs (λ ps. takes one_packet [] refl refl)))
        (runs (λ ps. ticks one_packet refl)))
      (runs (λ ps. ticks no_packet refl))

rests : (rested.spacer.running ≡ idle) × (rested.spacer.pkt_chan ≡ [])
unfolding write_packetizer marshal_all get_pts write_all take_packets tick
rests = (refl, refl)

stamps : get_pts stamped ≡ ok (pos 1)
unfolding get_pts
stamps = refl

fed :
    Feeds queue no_parsers fake receiver.jitter_buffer tt
      (heard (all_pieces (frames_of cuts 7 one_frame)))
      []
      tt
unfolding unmarshal
fed = pops (numbered_packet 7 (1 ∷ 2 ∷ [])) (1 ∷ 2 ∷ []) refl refl refl ends

abbrev clock : ℕ → ℤ
clock k = pos (1000 + k)

process_packets-sent_example :
    (map parse (payloads_of rested.spacer.sent)
      ≡ packets_of (all_pieces (frames_of cuts 7 one_frame)))
    × ((e : Depacketizer queue no_parsers) × ((process_packets queue no_parsers 2 clock receiver
            ≡ returned e)
          × (map (λ (f : EncodedFrame). f.bytes) e.frames ≡ (1 ∷ 2 ∷ []) ∷ [])))
process_packets-sent_example =
    process_packets-sent whole_frames five parse factory info cuts queue no_parsers linked (pos 33)
      is_linked rested one_frame to_rested rests.0 rests.1 ((tt, (pos 1, stamps)), tt) clock 2
      receiver (λ b e. omega (arith, e)) fed refl (omega arith)
