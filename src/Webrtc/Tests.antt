-- ===== src/Webrtc/Tests.antt =====
-- Signalling over a peer connection that takes everything, where a description is `true` for an offer
-- and a candidate is a number, and reports on two packets.
use mrtp.Prelude.{Option, ℕ, ◌≡◌, refl, List, [], ◌∷◌, Bool, true, false, none, some, arith}
use mrtp.Prelude.Int.{ℤ, pos}
use mrtp.Quic.Feedback.{BweCall}
use mrtp.Webrtc.Signaling.{
  ice_candidate, Peer, Transport, on_ice_candidate, handle_session_description,
}
use mrtp.Webrtc.Signaling.Candidates.{Event, gathered, candidates, all_gathered, run}
use mrtp.Webrtc.Signaling.Sessions.{begin, run-candidates}
use mrtp.Webrtc.Net.{Received, get_ecn}
use mrtp.Webrtc.Net.Marks.{read_all, latest, mark, get_ecn-read_all}
use mrtp.Webrtc.Ccfb as Ccfb
use mrtp.Webrtc.Ccfb.{PacketReport, Report, call_of, on_ccfb}
use mrtp.Webrtc.Ccfb.Counts.{Counted, all_packets, received, received-Counted}

abbrev rtp_datagram : Received
rtp_datagram = record {
  failed = false;
  n = 4;
  buffer = 128 ∷ 96 ∷ 0 ∷ 5 ∷ [];
  messages = some (record { ip = true; tos = true; bytes = 7 ∷ [] } ∷ []);
}

abbrev short_header : List ℕ → Option (ℕ × ℕ)
short_header (b ∷ t ∷ hi ∷ lo ∷ rest) = some (1, lo)
short_header _ = none

-- The packet again, with two control messages, and a packet of RTCP with the same bytes for the header.
abbrev three_datagrams : List Received
three_datagrams =
    rtp_datagram
    ∷ record rtp_datagram {
      messages = some (
          record { ip = true; tos = true; bytes = [] }
          ∷ record { ip = true; tos = true; bytes = 6 ∷ [] }
          ∷ []);
    }
    ∷ record rtp_datagram { buffer = 128 ∷ 200 ∷ 0 ∷ 5 ∷ [] }
    ∷ []

get_ecn-read_all_example : get_ecn (read_all short_header (λ s q. none) three_datagrams) 1 5 ≡ 2
unfolding latest mark
get_ecn-read_all_example = get_ecn-read_all short_header three_datagrams 1 5

abbrev easy : Peer Bool ℕ
easy = record {
  State = Unit {0};
  is_offer = λ d. d;
  create_offer = λ s. (s, some true);
  create_answer = λ s. (s, some false);
  set_local_description = λ d s. (s, true);
  set_remote_description = λ d s. (s, true);
  local_description = λ s. false;
  accepts = λ ms m. true;
}

abbrev first : List (Event Bool ℕ)
first = gathered (some 1) ∷ gathered (some 2) ∷ []

run-candidates_example :
    let t = run easy (begin easy tt true) first in
    (candidates t.sent ≡ [])
    × (candidates
          (run easy
            (handle_session_description easy t false).0
            (gathered none ∷ gathered (some 3) ∷ [])).sent
        ≡ 1 ∷ 2 ∷ 3 ∷ [])
unfolding all_gathered run on_ice_candidate
run-candidates_example =
    run-candidates easy tt true first (gathered none ∷ gathered (some 3) ∷ []) false refl refl
      (ground arith)

abbrev twice : Transport easy
twice = record {
  pc = tt;
  offerer = true;
  has_remote_description = true;
  pending_ice_candidates = 1 ∷ [];
  sent = ice_candidate 1 ∷ [];
}

abbrev arrived_packet : PacketReport
arrived_packet = record {
  sequence_number = 1;
  size = pos 1200;
  arrived = true;
  departure = pos 10;
  arrival = pos 40;
  ecn = 3;
}

abbrev report : Report
report = record {
  arrival = pos 50;
  rtt = pos 30;
  packet_reports =
      arrived_packet ∷ record arrived_packet { sequence_number = 2; arrived = false } ∷ [];
}

abbrev quiet : Ccfb.Transport
quiet = record {
  bwe = true;
  set_target_rate = true;
  pacer = true;
  ect0 = 0;
  ect1 = 0;
  ecnce = 5;
  bwe_calls = [];
  target_rates = [];
  pacer_rates = [];
}

abbrev rate : List BweCall → ℤ
rate calls = pos 900

abbrev same_rate : ℤ → ℤ
same_rate r = r

abbrev always : List ℕ → ℕ → Bool
always rs r = true

received-Counted_example :
    Counted quiet
      (received rate same_rate always quiet (report ∷ report ∷ []))
      (all_packets (report ∷ report ∷ []))
received-Counted_example =
    received-Counted rate same_rate always quiet (report ∷ report ∷ []) refl
      (record { ect0 = omega arith; ect1 = omega arith; ecnce = omega arith })
