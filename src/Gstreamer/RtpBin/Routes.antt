-- ===== src/Gstreamer/RtpBin/Routes.antt =====
-- The routes of media and feedback in the graph of gstreamer/rtpbin.go.
use mrtp.Prelude.{ℕ, ◌≡◌, ◌∙◌, ap, inl, inr, List, Bool, true, false, some, Option-cases}
use mrtp.Gstreamer.RtpBin.{
  Element, rtpbin, pad, send_rtp_src, sink, src, GstCall, add_element, sync_state, link_pads, ok,
  RtpBin, Event, ◌>>◌, set_at, call, pad_added, add_rtp_transport_sink, add_rtp_source_stream,
  adds_transport_sink, adds_source_stream, adds_pad, step, run,
}
use mrtp.Gstreamer.RtpBin.Growth.{Has, Grows, Grows-trans}
use mrtp.Gstreamer.RtpBin.Runs.{step-IsGrowing, run-Grows}
use mrtp.Gstreamer.RtpBin.Paths.{
  Flows, linked, through_rtpbin, joined, Ensures, Made, second, makes, Enters, Enters-Flows,
  add_rtp_source_stream-Enters,
}
use mrtp.Gstreamer.RtpBin.Feedback.{set_at-same}

Enters-Grows :
    (s t : RtpBin) (scream : Bool) (id : ℕ) (e : Element)
    → Grows s t
    → Enters scream id e s.calls
    → Enters scream id e t.calls
Enters-Grows s t true id e g (into, out) = (g.calls _ into, g.calls _ out)
Enters-Grows s t false id e g straight = g.calls _ straight

module _ (works : List GstCall → GstCall → Bool) where
  add_rtp_transport_sink-transports :
      (id : ℕ) (e : Element) (s : RtpBin)
      → (add_rtp_transport_sink works id e s).1 ≡ ok
      → (add_rtp_transport_sink works id e s).0.transports id ≡ some e
  unfolding add_rtp_transport_sink
  add_rtp_transport_sink-transports id e s done = elim (Option-cases (s.transports id)) [
    | inl free ↦
        let kept : RtpBin = record s { transports = set_at s.transports id e } in
        let same : (add_rtp_transport_sink works id e s).0 ≡ kept =
          simp (add_rtp_transport_sink, free) in
        ap (λ (t : RtpBin). t.transports id) same ∙ set_at-same works s.transports id e
    | inr (x, held) ↦ absurd (cc (simp (add_rtp_transport_sink, held) at done))
  ]

  pad_added-Has :
      (id : ℕ) (e : Element) (s : RtpBin)
      → s.transports id ≡ some e
      → (pad_added works (send_rtp_src id) s).1 ≡ ok
      → Has
          (link_pads (pad rtpbin (send_rtp_src id)) (some (pad e sink)))
          (pad_added works (send_rtp_src id) s).0.calls
  unfolding pad_added
  pad_added-Has id e s known done =
      let link = link_pads (pad rtpbin (send_rtp_src id)) (some (pad e sink)) in
      let op =
        call works (add_element (some e)) >> call works (sync_state (some e)) >> call works link in
      let same : pad_added works (send_rtp_src id) s ≡ op s = simp (pad_added, known) in
      let made : Ensures op (Made link) = second _ _ _ (second _ _ _ (makes works link)) in
      rw same (made.holds s (rw⁻¹ same done))

  -- A transport's sink is registered under a number, later a source is added under the number, and later
  -- still the rtpbin's pad of the number appears, with any other operations between and whatever of them
  -- fails. When the three succeed, what the source sends arrives at that sink. On the way, the source is
  -- linked to SCReAM and SCReAM to the rtpbin's pad of the number, if SCReAM is enabled for sending when
  -- the source is added, and otherwise the source is linked to that pad itself; and the rtpbin's other
  -- pad of the number is linked to the sink.
  pub add_rtp_source_stream-route :
      (s : RtpBin) (id : ℕ) (source out : Element) (es es' : List Event)
      → (step works (adds_transport_sink id out) s).1 ≡ ok
      → let t = run works es (step works (adds_transport_sink id out) s).0 in
        (step works (adds_source_stream id source) t).1 ≡ ok
        → let u = run works es' (step works (adds_source_stream id source) t).0 in
          (step works (adds_pad (send_rtp_src id)) u).1 ≡ ok
          → let calls = (step works (adds_pad (send_rtp_src id)) u).0.calls in
            Flows calls (pad source src) (pad out sink)
            × (Enters t.scream_tx id source calls
                × Has (link_pads (pad rtpbin (send_rtp_src id)) (some (pad out sink))) calls)
  unfolding step
  add_rtp_source_stream-route s id source out es es' registered added appeared =
      let s₁ = (add_rtp_transport_sink works id out s).0 in
      let t = run works es s₁ in
      let t₁ = (add_rtp_source_stream works id source t).0 in
      let u = run works es' t₁ in
      let u₁ = (pad_added works (send_rtp_src id) u).0 in
      let to_u : Grows s₁ u = Grows-trans s₁ t u (run-Grows works es s₁) (
        Grows-trans t t₁ u ((step-IsGrowing works (adds_source_stream id source)).grows t)
          (run-Grows works es' t₁)) in
      let from_t : Grows t₁ u₁ =
        Grows-trans t₁ u u₁ (run-Grows works es' t₁)
          ((step-IsGrowing works (adds_pad (send_rtp_src id))).grows u) in
      let known = to_u.transports id out (add_rtp_transport_sink-transports id out s registered) in
      let enters =
        Enters-Grows t₁ u₁ t.scream_tx id source from_t
          (add_rtp_source_stream-Enters works id source t added) in
      let leaves = pad_added-Has id out u known appeared in
      (
        joined (Enters-Flows t.scream_tx id source u₁.calls enters)
            (joined (through_rtpbin id) (linked leaves)),
        (enters, leaves),
      )
