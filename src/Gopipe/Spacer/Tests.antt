-- ===== src/Gopipe/Spacer/Tests.antt =====
-- Concrete runs of gopipe/frame_spacer.go.
use mrtp.Prelude.{◌≡◌, refl, [], ◌∷◌, ◌++◌, arith}
use mrtp.Prelude.Int.{pos}
use mrtp.Gopipe.Attributes.{no_attributes}
use mrtp.Gopipe.Spacer.{
  Packets, exact_spacing, FrameSpacer, idle, pacing, write_all, take_packets, tick, Steps, here,
  later, writes, takes, ticks, link_spacer,
}
use mrtp.Gopipe.Spacer.Order.{all_of, in_hand, run_order}
use mrtp.Gopipe.Spacer.Drain.{exact_spacing-Spaces, run_drains}

abbrev first_frame : Packets
first_frame = record { payloads = (1 ∷ []) ∷ (2 ∷ []) ∷ []; attributes = no_attributes }

abbrev second_frame : Packets
second_frame = record { payloads = (3 ∷ []) ∷ []; attributes = no_attributes }

-- after two writes, the first of which has been received, and whose first packet is out
abbrev half_sent : FrameSpacer
half_sent = record {
  frame_duration = pos 33_000_000;
  pkt_chan = second_frame ∷ [];
  running = pacing (record { payloads = (2 ∷ []) ∷ []; attributes = no_attributes });
  sent = (1 ∷ [], no_attributes) ∷ [];
}

to_half_sent :
    Steps exact_spacing
      (link_spacer (pos 33_000_000), [])
      (half_sent, first_frame ∷ second_frame ∷ [])
unfolding write_all take_packets tick
to_half_sent =
    later
      (later
        (later (later here (writes first_frame (omega arith))) (takes first_frame [] refl refl))
        (writes second_frame (omega arith)))
      (ticks first_frame refl)

run_order_example :
    all_of (first_frame ∷ second_frame ∷ [])
    ≡ half_sent.sent ++ in_hand half_sent.running ++ all_of half_sent.pkt_chan
run_order_example =
    run_order exact_spacing (pos 33_000_000) half_sent (first_frame ∷ second_frame ∷ [])
      to_half_sent tt

run_drains_example :
    (t : FrameSpacer) × (Steps exact_spacing
        (half_sent, first_frame ∷ second_frame ∷ [])
        (t, first_frame ∷ second_frame ∷ [])
      × ((t.running ≡ idle) × (t.sent ≡ all_of (first_frame ∷ second_frame ∷ []))))
run_drains_example =
    run_drains exact_spacing exact_spacing-Spaces 33_000_000 half_sent
      (first_frame ∷ second_frame ∷ []) to_half_sent tt ((omega arith, omega arith), tt)
