-- ===== src/Gstreamer/RtpBin/Scream.antt =====
-- A receiver with SCReAM in the graph of gstreamer/rtpbin.go: its media and its feedback.
use mrtp.Prelude.{ℕ, ◌≡◌, inl, inr, List, Bool, true, false, none, some, Option-cases}
use mrtp.Gstreamer.RtpBin.{
  screamrx, capsfilter, created, Element, rtpbin, Pad, pad, recv_rtp_sink, send_rtcp_src, sink, src,
  rtcp_src, sink_0, sink_1, GstCall, set_caps, add_element, sync_state, get_pad, link_pads, Outcome,
  ok, error, panic, RtpBin, Op, Event, ◌>>◌, call_or, call, with_new, send_rtcp_for_stream,
  link_receiver, requested, sync_receiver, receive_through_scream, receive_rtp_stream_from,
  sends_rtcp, receives_rtp, step, run,
}
use mrtp.Gstreamer.RtpBin.Growth.{then-IsGrowing, Has, Grows, Grows-trans, IsGrowing}
use mrtp.Gstreamer.RtpBin.Runs.{
  funnel_to_receive-IsGrowing, link_receiver-IsGrowing, last_call, and_then, step-IsGrowing,
  run-Grows,
}
use mrtp.Gstreamer.RtpBin.Paths.{
  Flows, linked, through, through_funnel_0, through_funnel_1, joined, Ensures, Made, first, second,
  both, makes, makes_or_panics, makes_first, with_new-Ensures,
}
use mrtp.Gstreamer.RtpBin.Feedback.{SomeFunnel, funnel_to_receive-Ensures, funnel_to_send-Ensures}

module _ (works : List GstCall → GstCall → Bool) where
  module _ (nil : (calls : List GstCall) (p : Pad) → works calls (link_pads p none) ≡ false) where
    link_requested :
        (r : Outcome) (p q : Pad) (t : RtpBin)
        → (call works (link_pads p (requested r q)) t).1 ≡ ok
        → Made (link_pads p (some q)) (call works (link_pads p (requested r q)) t).0
    unfolding call_or
    link_requested ok p q t done = (makes works (link_pads p (some q))).holds t done
    link_requested error p q t done = absurd (cc (simp (call_or, nil t.calls p) at done))
    link_requested panic p q t done = absurd (cc (simp (call_or, nil t.calls p) at done))

    link_receiver-Made :
        (filter : Element) (id : ℕ)
        → Ensures
            (link_receiver works filter id)
            (Made (link_pads (pad filter src) (some (pad rtpbin (recv_rtp_sink id)))))
    unfolding link_receiver
    link_receiver-Made filter id = record {
      holds = λ s done.
          let r = call works (get_pad (pad rtpbin (recv_rtp_sink id))) s in
          link_requested r.1 (pad filter src) (pad rtpbin (recv_rtp_sink id)) r.0 done;
    }

    -- What a receiver with SCReAM has linked: the source to its element, that to the filter, the filter to
    -- the rtpbin, and its feedback to the funnel of the session.
    abbrev Received : ℕ → Element → Element → Element → RtpBin → Type 0
    Received id e filter rx s =
        Made (link_pads (pad e src) (some (pad rx sink))) s
        × (Made (link_pads (pad rx src) (some (pad filter sink))) s
            × SomeFunnel works id
                (λ f t.
                  Made (link_pads (pad filter src) (some (pad rtpbin (recv_rtp_sink id)))) t
                  × Made (link_pads (pad rx rtcp_src) (some (pad f sink_1))) t)
                s)

    receive_through_scream-Received :
        (id : ℕ) (e filter : Element)
        → Ensures
            (receive_through_scream works id e filter)
            (λ s. (n : ℕ) × Received id e filter (created screamrx n) s)
    receive_through_scream-Received id e filter = with_new-Ensures works screamrx _ _ (λ n. record {
      holds = λ s done.
          let rx = created screamrx n in
          let tail : Element → Op = λ f.
            link_receiver works filter id
            >> sync_receiver works e filter
            >> call works (sync_state (some rx))
            >> call works (sync_state (some f)) in
          let next : Element → Op =
            λ f. call works (link_pads (pad rx rtcp_src) (some (pad f sink_1))) >> tail f in
          let synced : (f : Element)
              → IsGrowing (
                  sync_receiver works e filter
                  >> call works (sync_state (some rx))
                  >> call works (sync_state (some f))) =
            λ f.
              then-IsGrowing _ _ (and_then works _ _ _ (last_call works _ _))
                (and_then works _ _ _ (last_call works _ _)) in
          let tail_grows : (f : Element) → IsGrowing (tail f) =
            λ f. then-IsGrowing _ _ (link_receiver-IsGrowing works filter id) (synced f) in
          let grows : (f : Element) → IsGrowing (next f) =
            λ f. and_then works _ _ _ (tail_grows f) in
          let funnels =
            funnel_to_receive-Ensures works id next
              (λ f t.
                Made (link_pads (pad filter src) (some (pad rtpbin (recv_rtp_sink id)))) t
                × Made (link_pads (pad rx rtcp_src) (some (pad f sink_1))) t)
              grows
              (λ f.
                both (next f) _ _
                  (second _ _ _ (first _ _ _ (link_receiver-Made filter id) (synced f)))
                  (makes_first works _ _ (tail_grows f))) in
          let rest_grows = funnel_to_receive-IsGrowing works id next grows in
          (
            n,
            (
              (second _ _ (Made (link_pads (pad e src) (some (pad rx sink))))
                    (first _ _ _ (makes_or_panics works _) (and_then works _ _ _ rest_grows))).holds
                  s done,
              (
                (second _ _ (Made (link_pads (pad rx src) (some (pad filter sink))))
                      (second _ _ _ (first _ _ _ (makes_or_panics works _) rest_grows))).holds
                    s done,
                (second _ _ _ (second _ _ _ (second _ _ _ funnels))).holds s done,
              ),
            ),
          );
    })

    receive_rtp_stream_from-Received :
        (id : ℕ) (e : Element) (s : RtpBin)
        → (receive_rtp_stream_from works id e true s).1 ≡ ok
        → (m : ℕ) × ((n : ℕ) × Received id e
              (created capsfilter m)
              (created screamrx n)
              (receive_rtp_stream_from works id e true s).0)
    unfolding receive_rtp_stream_from
    receive_rtp_stream_from-Received id e s done = elim (Option-cases (s.streams id)) [
      | inl x ↦ absurd (cc (simp (receive_rtp_stream_from, x) at done))
      | inr (stream, x) ↦
          let rest : Element → Op = λ filter.
            call works (set_caps filter stream.caps)
            >> call works (add_element (some filter))
            >> receive_through_scream works id e filter in
          let op = call works (add_element (some e)) >> with_new works capsfilter rest in
          let same : receive_rtp_stream_from works id e true s ≡ op s =
            simp (receive_rtp_stream_from, x) in
          let made : Ensures op (λ t.
            (m : ℕ) × ((n : ℕ) × Received id e (created capsfilter m) (created screamrx n) t)) =
            second _ _ _ (
              with_new-Ensures works capsfilter rest _ (λ m. record {
                holds = λ t ended. (
                  m,
                  (second _ _ _ (
                        second _ _ _
                          (receive_through_scream-Received id e (created capsfilter m)))).holds
                      t ended,
                );
              })) in
          rw same (made.holds s (rw⁻¹ same done))
    ]

    -- What RTCP to a sink has linked.
    abbrev Sending : ℕ → Element → Element → RtpBin → Type 0
    Sending id out f s =
        Made (link_pads (pad rtpbin (send_rtcp_src id)) (some (pad f sink_0))) s
        × Made (link_pads (pad f src) (some (pad out sink))) s

    send_rtcp_for_stream-Sending :
        (id : ℕ) (out : Element)
        → Ensures (send_rtcp_for_stream works id out) (SomeFunnel works id (Sending id out))
    unfolding send_rtcp_for_stream
    send_rtcp_for_stream-Sending id out = second _ _ _ (
        funnel_to_send-Ensures works id
          (λ f.
            call works (link_pads (pad rtpbin (send_rtcp_src id)) (some (pad f sink_0)))
            >> call works (add_element (some out))
            >> call works (link_pads (pad f src) (some (pad out sink))))
          (Sending id out) (λ f. and_then works _ _ _ (and_then works _ _ _ (last_call works _ _)))
          (λ f.
            both _ _ _ (makes_first works _ _ (and_then works _ _ _ (last_call works _ _)))
              (second _ _ _ (second _ _ _ (makes works _)))))

    -- A stream is received with SCReAM, and later a sink for the RTCP of the session is added, with any
    -- other operations between and whatever of them fails. When the two succeed, the media arrives at the
    -- rtpbin's pad of the session, through an element of SCReAM, and both what that element and what the
    -- rtpbin report about the session arrive at the sink: the two share one funnel. GStreamer must never
    -- link to a pad that is nil.
    pub receive_rtp_stream_from-feedback :
        (s : RtpBin) (id : ℕ) (e out : Element) (es : List Event)
        → (step works (receives_rtp id e true) s).1 ≡ ok
        → let t = run works es (step works (receives_rtp id e true) s).0 in
          (step works (sends_rtcp id out) t).1 ≡ ok
          → let u = (step works (sends_rtcp id out) t).0 in
            (n : ℕ) × ((Flows u.calls (pad e src) (pad (created screamrx n) sink)
                × Flows u.calls (pad (created screamrx n) src) (pad rtpbin (recv_rtp_sink id)))
              × (Flows u.calls (pad (created screamrx n) rtcp_src) (pad out sink)
                  × Flows u.calls (pad rtpbin (send_rtcp_src id)) (pad out sink)))
    unfolding step
    receive_rtp_stream_from-feedback s id e out es received sending =
        let s₁ = (receive_rtp_stream_from works id e true s).0 in
        let t = run works es s₁ in
        let u = (send_rtcp_for_stream works id out t).0 in
        let (m, (n, (enters, (leaves, (f, (has, (media, report))))))) =
          receive_rtp_stream_from-Received id e s received in
        let (g, (has', (rtcp, goes))) = (send_rtcp_for_stream-Sending id out).holds t sending in
        let grows : Grows s₁ u =
          Grows-trans s₁ t u (run-Grows works es s₁)
            ((step-IsGrowing works (sends_rtcp id out)).grows t) in
        let one : f ≡ g = cc (grows.funnels id f has, has') in
        let filter = created capsfilter m in
        let rx = created screamrx n in
        let kept : (p q : Pad) → Has (link_pads p (some q)) s₁.calls → Flows u.calls p q =
          λ p q h. linked (grows.calls (link_pads p (some q)) h) in
        let onward : Flows u.calls (pad f src) (pad out sink) = rw one (linked goes) in
        (
          n,
          (
            (
              kept (pad e src) (pad rx sink) enters,
              joined (kept (pad rx src) (pad filter sink) leaves) (
                  joined (through capsfilter m)
                    (kept (pad filter src) (pad rtpbin (recv_rtp_sink id)) media)),
            ),
            (
              joined (kept (pad rx rtcp_src) (pad f sink_1) report)
                  (joined (through_funnel_1 f) onward),
              joined (linked rtcp) (joined (through_funnel_0 g) (linked goes)),
            ),
          ),
        )
