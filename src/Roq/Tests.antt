-- ===== src/Roq/Tests.antt =====
-- Reads and flows of the package roq at concrete values.
use mrtp.Prelude.{◌≡◌, refl, false, true}
use mrtp.Roq.{Flows, read_rtp, stream_cancelled, handle_uni_stream, to_roq, unknown_flow}

abbrev rtp_only : Flows
rtp_only = record {
  rtp_flow_id = 0;
  rtcp_recv_flow_id = 1;
  rtcp_send_flow_id = 2;
  datachannel = false;
}

rtcp_to_roq : handle_uni_stream rtp_only 2 ≡ to_roq
unfolding handle_uni_stream
rtcp_to_roq = refl

third_unknown : handle_uni_stream rtp_only 3 ≡ unknown_flow
unfolding handle_uni_stream
third_unknown = refl

cancelled_read : read_rtp stream_cancelled ≡ (0, true)
unfolding read_rtp
cancelled_read = refl
