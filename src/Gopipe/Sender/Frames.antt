-- ===== src/Gopipe/Sender/Frames.antt =====
-- The packets of a frame, and what `Write` of gopipe/rtp_packetizer.go makes of it before a spacer.
use mrtp.Prelude.{
  ℕ, ◌≡◌, refl, sym, ap, List, [], ◌∷◌, ◌++◌, append_assoc, append-nil, ◌⊎◌, Option, none, some,
  inl, inr, Option-cases,
}
use mrtp.Prelude.Int.{ℤ}
use mrtp.Logging.Unwrapper.{Unwrapper, new_unwrapper, unwrap}
use mrtp.Gopipe.Attributes.{
  Attributes, Result, ok, error, panic, not_marshaled, get_pts, Result-cases,
}
use mrtp.Gopipe.Pipeline.{Info}
use mrtp.Gopipe.Packetizer.{
  PacketizerFactory, Rtp, RtpPacketizer, multi, get_packetizer_by_name, link_packetizer,
  marshal_all, write_packetizer,
}
use mrtp.Gopipe.Spacer.{Packets, Sent, FrameSpacer, each_with, write_all}
use mrtp.Gopipe.Sender.{Frame, spacer_sink}

abbrev or_nothing : Option (List (List ℕ)) → Attributes → List Sent
or_nothing none a = []
or_nothing (some bufs) a = each_with bufs a

abbrev as_result : Option (List (List ℕ)) → Result (List (List ℕ))
as_result none = error not_marshaled
as_result (some bufs) = ok bufs

abbrev and_then : Option (List ℕ) → Option (List (List ℕ)) → Option (List (List ℕ))
and_then none rest = none
and_then (some buf) none = none
and_then (some buf) (some bufs) = some (buf ∷ bufs)

module _ (R : Rtp) where
  open R use {State, RtpPacket, packetize, marshal}

  abbrev pub marshaled : List RtpPacket → Option (List (List ℕ))
  marshaled [] = some []
  marshaled (p ∷ ps) = and_then (marshal p) (marshaled ps)

  -- The packets of one frame, none where the frame has no time stamp or a packet cannot be marshaled.
  abbrev pub frame_packets : List RtpPacket → Attributes → List Sent
  frame_packets pkts a = elim (get_pts a) [
    | ok n ↦ or_nothing (marshaled pkts) a
    | error e ↦ []
    | panic ↦ []
  ]

  -- pion's packetizer after the frames, and the packets of all of them; `n` is the samples of a frame.
  abbrev pub after_frames : ℕ → State → List Frame → State
  after_frames n st [] = st
  after_frames n st ((b, a) ∷ fs) = after_frames n (packetize b n st).0 fs

  abbrev pub all_packets : ℕ → State → List Frame → List Sent
  all_packets n st [] = []
  all_packets n st ((b, a) ∷ fs) =
      frame_packets (packetize b n st).1 a ++ all_packets n (packetize b n st).0 fs

  marshal_all_lem :
      (ps : List RtpPacket) (u : Unwrapper) → (marshal_all R ps u).1 ≡ as_result (marshaled ps)
  unfolding marshal_all
  marshal_all_lem [] u = refl
  marshal_all_lem (p ∷ ps) u = elim (Option-cases (marshal p)) [
    | inl e ↦ simp (marshal_all, e)
    | inr (buf, e) ↦
        let h = marshal_all_lem ps (unwrap u (R.sequence_number p)).0 in
        elim (Option-cases (marshaled ps)) [
          | inl e' ↦ simp (marshal_all, e, e', h)
          | inr (bufs, e') ↦ simp (marshal_all, e, e', h)
        ]
  ]

  pub after_frames-append :
      (n : ℕ) (st : State) (fs : List Frame) (b : List ℕ) (a : Attributes)
      → after_frames n st (fs ++ (b, a) ∷ []) ≡ (packetize b n (after_frames n st fs)).0
  after_frames-append n st [] b a = refl
  after_frames-append n st ((b', a') ∷ fs) b a = after_frames-append n (packetize b' n st).0 fs b a

  pub all_packets-append :
      (n : ℕ) (st : State) (fs : List Frame) (b : List ℕ) (a : Attributes)
      → all_packets n st (fs ++ (b, a) ∷ [])
        ≡ all_packets n st fs ++ frame_packets (packetize b n (after_frames n st fs)).1 a
  all_packets-append n st [] b a = append-nil (frame_packets (packetize b n st).1 a)
  all_packets-append n st ((b', a') ∷ fs) b a =
      rw (all_packets-append n (packetize b' n st).0 fs b a, append_assoc)

  -- The samples of a frame.
  abbrev pub frame_samples : RtpPacketizer R → ℕ
  frame_samples p = R.samples p.frame_duration p.factory.clock_rate

  pub link_packetizer-samples :
      (factory : PacketizerFactory) (i : Info) (p : RtpPacketizer R)
      → link_packetizer R factory i ≡ ok p
      → frame_samples p ≡ R.samples (R.period i.timebase_num i.timebase_den) factory.clock_rate
  unfolding link_packetizer
  link_packetizer-samples factory i p linked =
      elim (Result-cases (get_packetizer_by_name factory.codec)) [
        | inl (payloader, e) ↦
            let linked_to : RtpPacketizer R = record {
              factory = factory;
              frame_duration = R.period i.timebase_num i.timebase_den;
              packetizer = R.new_packetizer factory payloader;
              unwrapper = new_unwrapper;
            } in
            let same : linked_to ≡ p = cc (simp (link_packetizer, e) at linked) in
            ap frame_samples (sym same)
        | inr (inl (err, e)) ↦ absurd (cc (simp (link_packetizer, e) at linked))
        | inr (inr e) ↦ absurd (cc (simp (link_packetizer, e) at linked))
      ]

  module _ (space : ℤ → ℕ → ℤ) where
    -- What a write of a frame leaves behind: the spacer is given the frame's packets, or nothing.
    pub record Written (p p' : RtpPacketizer R) (s s' : FrameSpacer) (b : List ℕ) (a : Attributes)
        : Type 0 where
      pub state : p'.packetizer ≡ (packetize b (frame_samples p) p.packetizer).0
      pub settings : frame_samples p' ≡ frame_samples p
      pub given :
          ((s' ≡ s) × (frame_packets (packetize b (frame_samples p) p.packetizer).1 a ≡ []))
          ⊎ ((f : Packets) × ((s' ≡ write_all space s f)
                × (frame_packets (packetize b (frame_samples p) p.packetizer).1 a
                    ≡ each_with f.payloads f.attributes)))

    abbrev pub written :
        RtpPacketizer R → FrameSpacer → List ℕ → Attributes → RtpPacketizer R × FrameSpacer
    written p s b a = (write_packetizer R (multi (spacer_sink R space)) b a (p, s)).0

    pub write_packetizer-Written :
        (p : RtpPacketizer R) (s : FrameSpacer) (b : List ℕ) (a : Attributes)
        → Written p (written p s b a).0 s (written p s b a).1 b a
    unfolding write_packetizer
    write_packetizer-Written p s b a =
        let pkts = (packetize b (frame_samples p) p.packetizer).1 in
        let marshals = marshal_all_lem pkts p.unwrapper in
        elim (Result-cases (get_pts a)) [
          | inl (n, e) ↦ elim (Option-cases (marshaled pkts)) [
            | inl e' ↦ record {
              state = simp (written, write_packetizer, e, marshals, e');
              settings = simp (written, write_packetizer, e, marshals, e');
              given =
                  inl (
                    simp (written, write_packetizer, e, marshals, e'),
                    simp (frame_packets, e, e'),
                  );
            }
            | inr (bufs, e') ↦ record {
              state = simp (written, write_packetizer, e, marshals, e');
              settings = simp (written, write_packetizer, e, marshals, e');
              given = inr (
                record { payloads = bufs; attributes = a },
                (simp (written, write_packetizer, e, marshals, e'), simp (frame_packets, e, e')),
              );
            }
          ]
          | inr (inl (err, e)) ↦ record {
            state = simp (written, write_packetizer, e);
            settings = simp (written, write_packetizer, e);
            given = inl (simp (written, write_packetizer, e), simp (frame_packets, e));
          }
          | inr (inr e) ↦ record {
            state = simp (written, write_packetizer, e);
            settings = simp (written, write_packetizer, e);
            given = inl (simp (written, write_packetizer, e), simp (frame_packets, e));
          }
        ]
