-- ===== src/Webrtc/Ccfb.antt =====
-- webrtc/transport.go: reports of arrived packets, to the bandwidth estimator, the encoder and the pacer.
pub mod Counts
use mrtp.Prelude.{
  ℕ, zero, suc, ◌+◌, ◌*◌, ◌/◌, ◌%◌, ◌^◌, List, [], ◌∷◌, ◌++◌, map, Bool, true, false, ◌&&◌, not,
  Option, none, some, ◌==◌, ltb, if◌then◌else◌,
}
use mrtp.Prelude.Int.{ℤ, pos, pos_part, ltb_ℤ, to_uint64}
use mrtp.Quic.Feedback.{BweCall, on_ack, on_loss, update_rtt, update_ecn_counts, update_target_rate}

pub record PacketReport : Type 0 where
  pub sequence_number : ℕ
  pub size : ℤ
  pub arrived : Bool
  pub departure : ℤ
  pub arrival : ℤ
  pub ecn : ℕ

pub record Report : Type 0 where
  pub arrival : ℤ
  pub rtt : ℤ
  pub packet_reports : List PacketReport

-- The calls that the transport makes are kept in order. `set_target_rate` and `pacer` are whether the
-- transport has the callback and the pacer.
pub record Transport : Type 0 where
  pub bwe : Bool
  pub set_target_rate : Bool
  pub pacer : Bool
  pub ect0 : ℕ
  pub ect1 : ℕ
  pub ecnce : ℕ
  pub bwe_calls : List BweCall
  pub target_rates : List ℕ
  pub pacer_rates : List ℤ

-- The code points of RFC 3168.
abbrev pub ecn_ect1 : ℕ
ecn_ect1 = 1

abbrev pub ecn_ect0 : ℕ
ecn_ect0 = 2

abbrev pub ecn_ce : ℕ
ecn_ce = 3

abbrev pub increment : Bool → ℕ → ℕ
increment b n = if b then (n + 1) % 2 ^ 64 else n

abbrev pub count_ecn : Transport → ℕ → Transport
count_ecn t ecn = record t {
  ect0 = increment (ecn == ecn_ect0) t.ect0;
  ect1 = increment (ecn == ecn_ect1) t.ect1;
  ecnce = increment (ecn == ecn_ce) t.ecnce;
}

abbrev pub call_of : PacketReport → BweCall
call_of p =
    if p.arrived
    then on_ack p.sequence_number p.size p.departure p.arrival p.ecn
    else on_loss p.sequence_number p.size p.departure

-- One turn of the loop over the packet reports.
unfoldable pub report_packet : Transport → PacketReport → Transport
report_packet t p =
    let u = record t { bwe_calls = t.bwe_calls ++ call_of p ∷ [] } in
    if p.arrived then count_ecn u p.ecn else u

unfoldable pub report_packets : Transport → List PacketReport → Transport
report_packets t [] = t
report_packets t (p ∷ ps) = report_packets (report_packet t p) ps

-- The calls after the loop.
unfoldable pub report_totals : Transport → Report → Transport
report_totals t r = record t {
  bwe_calls =
      t.bwe_calls
      ++ update_ecn_counts t.ect0 t.ect1 t.ecnce
        ∷ update_rtt r.rtt
        ∷ update_target_rate r.arrival
        ∷ [];
}

-- `target_rate` is what the estimator answers after the calls it was given, `scale` is
-- `int(1.5 * float64(tr))`, `accepts` whether the callback returns no error.
module _ (target_rate : List BweCall → ℤ) (scale : ℤ → ℤ) (accepts : List ℕ → ℕ → Bool) where
  -- What follows for a rate above 0; `false` is the callback's error, which is returned at once.
  unfoldable pub apply_rate : Transport → ℤ → Transport × Bool
  apply_rate t tr =
      let u =
        if t.set_target_rate
        then record t { target_rates = t.target_rates ++ to_uint64 tr ∷ [] }
        else t in
      let v = if t.pacer then record u { pacer_rates = u.pacer_rates ++ scale tr ∷ [] } else u in
      if t.set_target_rate && not (accepts t.target_rates (to_uint64 tr))
      then (u, false)
      else (v, true)

  unfoldable pub on_ccfb : Transport → Report → Transport × Bool
  on_ccfb t r =
      let u = report_totals (report_packets t r.packet_reports) r in
      let tr = target_rate u.bwe_calls in
      if t.bwe then if ltb_ℤ (pos 0) tr then apply_rate u tr else (u, true) else (t, true)
