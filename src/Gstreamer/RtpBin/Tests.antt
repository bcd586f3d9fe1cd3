-- ===== src/Gstreamer/RtpBin/Tests.antt =====
-- Small graphs of gstreamer/rtpbin.go.
use mrtp.Prelude.{ℕ, ◌≡◌, refl, List, [], Bool, true, false, none, some}
use mrtp.Gstreamer.RtpBin.{
  external, screamrx, created, rtpbin, Pad, pad, sink, src, rtcp_src, send_rtp_src, send_rtcp_src,
  recv_rtp_sink, GstCall, link_pads, RtpBin, set_at, adds_transport_sink, adds_source_stream,
  adds_pad, receives_rtp, sends_rtcp, step, run, ◌>>◌, call_or, with_new, pad_added,
  add_rtp_transport_sink, add_rtp_source_stream, receive_rtp_stream_from, funnel_to_receive,
  link_receiver, send_rtcp_for_stream, funnel_to_send,
}
use mrtp.Gstreamer.RtpBin.Growth.{Has}
use mrtp.Gstreamer.RtpBin.Paths.{Flows, Enters}
use mrtp.Gstreamer.RtpBin.Routes.{add_rtp_source_stream-route}
use mrtp.Gstreamer.RtpBin.Scream.{receive_rtp_stream_from-feedback}

-- All works but links to nil.
abbrev works : List GstCall → GstCall → Bool
works calls (link_pads p none) = false
works calls _ = true

abbrev with_scream : RtpBin
with_scream = record {
  transports = λ id. none;
  streams = set_at (λ id. none) 0 (record { element = external 3; caps = 96 });
  rtcp_funnels = λ id. none;
  scream_tx = true;
  calls = [];
}

abbrev sender : RtpBin
sender = (step works (adds_transport_sink 0 (external 2)) with_scream).0

abbrev with_source : RtpBin
with_source = (step works (adds_source_stream 0 (external 1)) (run works [] sender)).0

add_rtp_source_stream-route_example :
    (let calls = (step works (adds_pad (send_rtp_src 0)) (run works [] with_source)).0.calls in
      Flows calls (pad (external 1) src) (pad (external 2) sink)
      × (Enters true 0 (external 1) calls
          × Has (link_pads (pad rtpbin (send_rtp_src 0)) (some (pad (external 2) sink))) calls))
unfolding step add_rtp_transport_sink add_rtp_source_stream pad_added ◌>>◌ call_or run
add_rtp_source_stream-route_example =
    add_rtp_source_stream-route works with_scream 0 (external 1) (external 2) [] [] refl refl refl

abbrev receiver : RtpBin
receiver = (step works (receives_rtp 0 (external 1) true) with_scream).0

abbrev reporting : RtpBin
reporting = (step works (sends_rtcp 0 (external 2)) (run works [] receiver)).0

no_nil : (calls : List GstCall) (p : Pad) → works calls (link_pads p none) ≡ false
no_nil calls p = refl

receive_rtp_stream_from-feedback_example :
    (n : ℕ) × ((Flows reporting.calls (pad (external 1) src) (pad (created screamrx n) sink)
        × Flows reporting.calls (pad (created screamrx n) src) (pad rtpbin (recv_rtp_sink 0)))
      × (Flows reporting.calls (pad (created screamrx n) rtcp_src) (pad (external 2) sink)
          × Flows reporting.calls (pad rtpbin (send_rtcp_src 0)) (pad (external 2) sink)))
unfolding step receive_rtp_stream_from funnel_to_receive link_receiver send_rtcp_for_stream
    funnel_to_send ◌>>◌ call_or with_new run
receive_rtp_stream_from-feedback_example =
    receive_rtp_stream_from-feedback works no_nil with_scream 0 (external 1) (external 2) [] refl
      refl
