-- ===== src/Gstreamer/RtpBin/Runs.antt =====
-- That every operation of gstreamer/rtpbin.go only adds to the graph.
use mrtp.Prelude.{
  ℕ, refl, inl, inr, List, [], ◌∷◌, Bool, true, false, some, Option-cases, if◌then◌else◌,
}
use mrtp.Gstreamer.RtpBin.{
  funnel, Element, rtpbin, screamtx, pad, PadName, recv_rtp_src, send_rtp_src, recv_rtp_sink,
  send_rtcp_src, sink, src, sink_0, GstCall, add_element, sync_state, get_pad, link_pads,
  link_filtered, Outcome, SinkBin, RtpBin, Op, Event, ◌>>◌, set_at, call_or, call, pad_added,
  add_rtp_transport_sink, add_rtp_sink, link_source, source_through_scream, add_rtp_source_stream,
  funnel_to_send, send_rtcp_for_stream, funnel_to_receive, requested, link_receiver,
  receive_through_scream, receive_rtp_stream_from, receive_rtcp_from, adds_transport_sink,
  adds_sink, adds_source_stream, sends_rtcp, receives_rtp, receives_rtcp, adds_pad, step, run,
}
use mrtp.Gstreamer.RtpBin.Growth.{
  Grows, Grows-refl, Grows-trans, IsGrowing, then-IsGrowing, call_or-IsGrowing, with_new-IsGrowing,
  set_at-keeps, new_funnel-Grows,
}

module _ (works : List GstCall → GstCall → Bool) where
  pub last_call : (r : Outcome) (c : GstCall) → IsGrowing (call_or works r c)
  last_call r c = call_or-IsGrowing works r c

  pub and_then :
      (r : Outcome) (c : GstCall) (g : Op) → IsGrowing g → IsGrowing (call_or works r c >> g)
  and_then r c g h = then-IsGrowing (call_or works r c) g (call_or-IsGrowing works r c) h

  pub link_receiver-IsGrowing :
      (filter : Element) (id : ℕ) → IsGrowing (link_receiver works filter id)
  unfolding link_receiver
  link_receiver-IsGrowing filter id = record {
    grows = λ s.
        let first = call works (get_pad (pad rtpbin (recv_rtp_sink id))) s in
        let link = link_pads (pad filter src) (requested first.1 (pad rtpbin (recv_rtp_sink id))) in
        Grows-trans s first.0 (call works link first.0).0 ((last_call _ _).grows s)
          ((last_call _ _).grows first.0);
  }

  pub funnel_to_send-IsGrowing :
      (id : ℕ) (next : Element → Op)
      → ((f : Element) → IsGrowing (next f))
      → IsGrowing (funnel_to_send works id next)
  unfolding funnel_to_send
  funnel_to_send-IsGrowing id next h = record {
    grows = λ s. elim (Option-cases (s.rtcp_funnels id)) [
      | inl e ↦
          rw (funnel_to_send, e)
            (new_funnel-Grows works id funnel
              (λ f. call works (add_element (some f)) >> call works (sync_state (some f)) >> next f)
              s (λ f. and_then _ _ _ (and_then _ _ _ (h f))) e)
      | inr (f, e) ↦ rw (funnel_to_send, e) ((h f).grows s)
    ];
  }

  pub funnel_to_receive-IsGrowing :
      (id : ℕ) (next : Element → Op)
      → ((f : Element) → IsGrowing (next f))
      → IsGrowing (funnel_to_receive works id next)
  unfolding funnel_to_receive
  funnel_to_receive-IsGrowing id next h = record {
    grows = λ s. elim (Option-cases (s.rtcp_funnels id)) [
      | inl e ↦
          rw (funnel_to_receive, e)
            (new_funnel-Grows works id funnel (λ f. call works (add_element (some f)) >> next f) s
              (λ f. and_then _ _ _ (h f)) e)
      | inr (f, e) ↦ rw (funnel_to_receive, e) ((h f).grows s)
    ];
  }

  send_rtcp_for_stream-IsGrowing :
      (id : ℕ) (e : Element) → IsGrowing (send_rtcp_for_stream works id e)
  unfolding send_rtcp_for_stream
  send_rtcp_for_stream-IsGrowing id e = and_then _ _ _ (
      funnel_to_send-IsGrowing id
        (λ f.
          call works (link_pads (pad rtpbin (send_rtcp_src id)) (some (pad f sink_0)))
          >> call works (add_element (some e))
          >> call works (link_pads (pad f src) (some (pad e sink))))
        (λ f. and_then _ _ _ (and_then _ _ _ (last_call _ _))))

  if-IsGrowing : (b : Bool) (f g : Op) → IsGrowing f → IsGrowing g → IsGrowing (if b then f else g)
  if-IsGrowing true f g hf hg = hf
  if-IsGrowing false f g hf hg = hg

  add_rtp_source_stream-IsGrowing :
      (id : ℕ) (e : Element) → IsGrowing (add_rtp_source_stream works id e)
  unfolding add_rtp_source_stream
  add_rtp_source_stream-IsGrowing id e = record {
    grows = λ s.
        (and_then _ _ _ (
            and_then _ _ _ (
              and_then _ _ _ (
                if-IsGrowing s.scream_tx (source_through_scream works id e)
                  (link_source works (pad e src) id)
                  (and_then _ _ _ (and_then _ _ _ (and_then _ _ _ (last_call _ _))))
                  (last_call _ _))))).grows
          s;
  }

  receive_rtcp_from-IsGrowing : (e : Element) → IsGrowing (receive_rtcp_from works e)
  unfolding receive_rtcp_from
  receive_rtcp_from-IsGrowing e = record {
    grows = λ s.
        (and_then _ _ _ (
            if-IsGrowing s.scream_tx
              (call works (link_filtered e screamtx)
                >> call works (link_filtered screamtx rtpbin)
                >> call works (sync_state (some screamtx)))
              (call works (link_filtered e rtpbin) >> call works (sync_state (some e)))
              (and_then _ _ _ (and_then _ _ _ (last_call _ _)))
              (and_then _ _ _ (last_call _ _)))).grows
          s;
  }

  receive_through_scream-IsGrowing :
      (id : ℕ) (e filter : Element) → IsGrowing (receive_through_scream works id e filter)
  receive_through_scream-IsGrowing id e filter = with_new-IsGrowing works _ _ (λ rx.
      and_then _ _ _ (
        and_then _ _ _ (
          and_then _ _ _ (
            funnel_to_receive-IsGrowing id _ (λ f. and_then _ _ _ (
              then-IsGrowing _ _ (link_receiver-IsGrowing filter id) (
                then-IsGrowing _ _ (and_then _ _ _ (last_call _ _))
                  (and_then _ _ _ (last_call _ _)))))))))

  receive_rtp_stream_from-IsGrowing :
      (id : ℕ) (e : Element) (scream : Bool) → IsGrowing (receive_rtp_stream_from works id e scream)
  unfolding receive_rtp_stream_from
  receive_rtp_stream_from-IsGrowing id e scream = record {
    grows = λ s. elim (Option-cases (s.streams id)) [
      | inl x ↦ rw (receive_rtp_stream_from, x) (Grows-refl s)
      | inr (stream, x) ↦
          rw (receive_rtp_stream_from, x)
            ((and_then _ _ _ (
                with_new-IsGrowing works _ _ (λ filter. and_then _ _ _ (
                  and_then _ _ _ (
                    if-IsGrowing scream (receive_through_scream works id e filter) _
                      (receive_through_scream-IsGrowing id e filter)
                      (and_then _ _ _ (
                        then-IsGrowing _ _ (link_receiver-IsGrowing filter id)
                          (and_then _ _ _ (last_call _ _))))))))).grows
              s)
    ];
  }

  pad_added-IsGrowing : (n : PadName) → IsGrowing (pad_added works n)
  unfolding pad_added
  pad_added-IsGrowing (recv_rtp_src id ssrc pt) = record {
    grows = λ s. elim (Option-cases (s.streams id)) [
      | inl x ↦ rw (pad_added, x) (Grows-refl s)
      | inr (stream, x) ↦
          rw (pad_added, x)
            ((and_then _ _ _ (and_then _ _ _ (and_then _ _ _ (last_call _ _)))).grows s)
    ];
  }
  pad_added-IsGrowing (send_rtp_src id) = record {
    grows = λ s. (and_then _ _ _ (and_then _ _ _ (last_call _ _))).grows s;
  }
  pad_added-IsGrowing _ = record { grows = Grows-refl }

  add_rtp_transport_sink-IsGrowing :
      (id : ℕ) (e : Element) → IsGrowing (add_rtp_transport_sink works id e)
  unfolding add_rtp_transport_sink
  add_rtp_transport_sink-IsGrowing id e = record {
    grows = λ s. elim (Option-cases (s.transports id)) [
      | inl free ↦
          let grows : Grows s (record s { transports = set_at s.transports id e }) = record {
            calls = λ c h. h;
            transports = set_at-keeps works s.transports id e free;
            streams = λ n x h. h;
            funnels = λ n x h. h;
            scream = refl;
          } in
          rw (add_rtp_transport_sink, free) grows
      | inr (x, held) ↦ rw (add_rtp_transport_sink, held) (Grows-refl s)
    ];
  }

  add_rtp_sink-IsGrowing : (id : ℕ) (e : SinkBin) → IsGrowing (add_rtp_sink works id e)
  unfolding add_rtp_sink
  add_rtp_sink-IsGrowing id e = record {
    grows = λ s. elim (Option-cases (s.streams id)) [
      | inl free ↦
          let grows : Grows s (record s { streams = set_at s.streams id e }) = record {
            calls = λ c h. h;
            transports = λ n x h. h;
            streams = set_at-keeps works s.streams id e free;
            funnels = λ n x h. h;
            scream = refl;
          } in
          rw (add_rtp_sink, free) grows
      | inr (x, held) ↦ rw (add_rtp_sink, held) (Grows-refl s)
    ];
  }

  pub step-IsGrowing : (e : Event) → IsGrowing (step works e)
  unfolding step
  step-IsGrowing (adds_transport_sink id e) = add_rtp_transport_sink-IsGrowing id e
  step-IsGrowing (adds_sink id e) = add_rtp_sink-IsGrowing id e
  step-IsGrowing (adds_source_stream id e) = add_rtp_source_stream-IsGrowing id e
  step-IsGrowing (sends_rtcp id e) = send_rtcp_for_stream-IsGrowing id e
  step-IsGrowing (receives_rtp id e scream) = receive_rtp_stream_from-IsGrowing id e scream
  step-IsGrowing (receives_rtcp e) = receive_rtcp_from-IsGrowing e
  step-IsGrowing (adds_pad n) = pad_added-IsGrowing n

  pub run-Grows : (es : List Event) (s : RtpBin) → Grows s (run works es s)
  unfolding run
  run-Grows [] s = Grows-refl s
  run-Grows (e ∷ es) s =
      let t = (step works e s).0 in
      Grows-trans s t (run works es t) ((step-IsGrowing e).grows s) (run-Grows es t)
