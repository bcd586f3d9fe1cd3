-- ===== src/Webrtc/Ccfb/Counts.antt =====
-- The calls and the counters of `onCCFB` in webrtc/transport.go over any number of reports.
use mrtp.Prelude.{
  ℕ, ◌+◌, ◌%◌, ◌^◌, ◌<◌, ◌≡◌, refl, ◌∙◌, List, [], ◌∷◌, ◌++◌, map, append-nil, append_assoc, Bool,
  true, ◌&&◌, ◌==◌, Bool-cases, inl, inr, if◌then◌else◌, arith,
}
use mrtp.Prelude.Int.{ℤ, pos, ltb_ℤ}
use mrtp.Quic.Feedback.{BweCall, update_rtt, update_ecn_counts, update_target_rate}
use mrtp.Webrtc.Ccfb.{
  PacketReport, Report, Transport, ecn_ect0, ecn_ect1, ecn_ce, call_of, report_packet,
  report_packets, report_totals, apply_rate, on_ccfb,
}

-- How many packets arrived with a mark.
unfoldable pub marked : ℕ → List PacketReport → ℕ
marked ecn [] = 0
marked ecn (p ∷ ps) = (if p.arrived && (p.ecn == ecn) then 1 else 0) + marked ecn ps

pub record Counted (t u : Transport) (ps : List PacketReport) : Type 0 where
  pub ect0 : u.ect0 ≡ (t.ect0 + marked ecn_ect0 ps) % 2 ^ 64
  pub ect1 : u.ect1 ≡ (t.ect1 + marked ecn_ect1 ps) % 2 ^ 64
  pub ecnce : u.ecnce ≡ (t.ecnce + marked ecn_ce ps) % 2 ^ 64

pub record Fits (t : Transport) : Type 0 where
  pub ect0 : t.ect0 < 2 ^ 64
  pub ect1 : t.ect1 < 2 ^ 64
  pub ecnce : t.ecnce < 2 ^ 64

report_packet-Fits : (t : Transport) (p : PacketReport) → Fits t → Fits (report_packet t p)
unfolding report_packet
report_packet-Fits t p f = record {
  ect0 = ground (arith, f.ect0);
  ect1 = ground (arith, f.ect1);
  ecnce = ground (arith, f.ecnce);
}

report_packets-Counted :
    (t : Transport) (ps : List PacketReport) → Fits t → Counted t (report_packets t ps) ps
unfolding report_packets report_packet marked
report_packets-Counted t [] f = record {
  ect0 = omega (arith, f.ect0);
  ect1 = omega (arith, f.ect1);
  ecnce = omega (arith, f.ecnce);
}
report_packets-Counted t (p ∷ ps) f =
    let c = report_packets-Counted (report_packet t p) ps (report_packet-Fits t p f) in
    record {
      ect0 = ground (arith, c.ect0);
      ect1 = ground (arith, c.ect1);
      ecnce = ground (arith, c.ecnce);
    }

report_packet-call :
    (t : Transport) (p : PacketReport)
    → (report_packet t p).bwe_calls ≡ t.bwe_calls ++ call_of p ∷ []
unfolding report_packet
report_packet-call t p = elim (Bool-cases p.arrived) [ inl x ↦ rw x | inr x ↦ rw x ]

report_packets-calls :
    (t : Transport) (ps : List PacketReport)
    → (report_packets t ps).bwe_calls ≡ t.bwe_calls ++ map call_of ps
unfolding report_packets
report_packets-calls t [] = rw append-nil
report_packets-calls t (p ∷ ps) =
    report_packets-calls (report_packet t p) ps
    ∙ rw (report_packet-call t p) (append_assoc t.bwe_calls (call_of p ∷ []) (map call_of ps))

report_packets-settings :
    (t : Transport) (ps : List PacketReport)
    → ((report_packets t ps).bwe ≡ t.bwe)
      × ((report_packets t ps).set_target_rate ≡ t.set_target_rate)
      × ((report_packets t ps).pacer ≡ t.pacer)
unfolding report_packets report_packet
report_packets-settings t [] = (refl, refl, refl)
report_packets-settings t (p ∷ ps) =
    let (b, s, q) = report_packets-settings (report_packet t p) ps in
    (ground (arith, b), ground (arith, s), ground (arith, q))

abbrev pub all_packets : List Report → List PacketReport
all_packets [] = []
all_packets (r ∷ rs) = r.packet_reports ++ all_packets rs

marked-append :
    (ecn : ℕ) (xs ys : List PacketReport) → marked ecn (xs ++ ys) ≡ marked ecn xs + marked ecn ys
unfolding marked
marked-append ecn [] ys = omega arith
marked-append ecn (x ∷ xs) ys = ground (arith, marked-append ecn xs ys)

module _ (target_rate : List BweCall → ℤ) (scale : ℤ → ℤ) (accepts : List ℕ → ℕ → Bool) where
  record Same (t u : Transport) : Type 0 where
    bwe : u.bwe ≡ t.bwe
    calls : u.bwe_calls ≡ t.bwe_calls
    ect0 : u.ect0 ≡ t.ect0
    ect1 : u.ect1 ≡ t.ect1
    ecnce : u.ecnce ≡ t.ecnce

  apply_rate-Same : (t : Transport) (tr : ℤ) → Same t (apply_rate target_rate scale accepts t tr).0
  unfolding apply_rate
  apply_rate-Same t tr = record {
    bwe = ground arith;
    calls = ground arith;
    ect0 = ground arith;
    ect1 = ground arith;
    ecnce = ground arith;
  }

  on_ccfb-Same :
      (t : Transport) (r : Report)
      → t.bwe ≡ true
      → Same
          (report_totals (report_packets t r.packet_reports) r)
          (on_ccfb target_rate scale accepts t r).0
  unfolding on_ccfb
  on_ccfb-Same t r on =
      let u = report_totals (report_packets t r.packet_reports) r in
      elim (Bool-cases (ltb_ℤ (pos 0) (target_rate u.bwe_calls))) [
        | inl x ↦ simp (on, x) (apply_rate-Same u (target_rate u.bwe_calls))
        | inr x ↦
            simp (on, x)
              (record { bwe = refl; calls = refl; ect0 = refl; ect1 = refl; ecnce = refl })
      ]

  -- Where there is an estimator, a report tells it of each packet, in order, as arrived or as lost,
  -- then of the marks counted so far, the round-trip time and the time of arrival.
  on_ccfb-calls :
      (t : Transport) (r : Report)
      → t.bwe ≡ true
      → let u = (on_ccfb target_rate scale accepts t r).0 in
        u.bwe_calls
        ≡ (t.bwe_calls ++ map call_of r.packet_reports)
          ++ update_ecn_counts u.ect0 u.ect1 u.ecnce
            ∷ update_rtt r.rtt
            ∷ update_target_rate r.arrival
            ∷ []
  unfolding report_totals
  on_ccfb-calls t r on =
      let s = on_ccfb-Same t r on in
      s.calls ∙ rw (s.ect0, s.ect1, s.ecnce, report_packets-calls t r.packet_reports)

  abbrev pub received : Transport → List Report → Transport
  received t [] = t
  received t (r ∷ rs) = received (on_ccfb target_rate scale accepts t r).0 rs

  on_ccfb-Counted :
      (t : Transport) (r : Report)
      → t.bwe ≡ true
      → Fits t
      → Counted t (on_ccfb target_rate scale accepts t r).0 r.packet_reports
  unfolding report_totals
  on_ccfb-Counted t r on f =
      let s = on_ccfb-Same t r on in
      let c = report_packets-Counted t r.packet_reports f in
      record { ect0 = s.ect0 ∙ c.ect0; ect1 = s.ect1 ∙ c.ect1; ecnce = s.ecnce ∙ c.ecnce }

  Counted-Fits : (t u : Transport) (ps : List PacketReport) → Counted t u ps → Fits u
  Counted-Fits t u ps c = record {
    ect0 = omega (arith, c.ect0);
    ect1 = omega (arith, c.ect1);
    ecnce = omega (arith, c.ecnce);
  }

  on_ccfb-bwe :
      (t : Transport) (r : Report)
      → t.bwe ≡ true
      → (on_ccfb target_rate scale accepts t r).0.bwe ≡ true
  unfolding report_totals
  on_ccfb-bwe t r on =
      (on_ccfb-Same t r on).bwe ∙ (report_packets-settings t r.packet_reports).0 ∙ on

  -- Where there is an estimator and the counters fit in 64 bits, they count, modulo 2 ^ 64, the packets
  -- that arrived with each of the three marks, over any number of reports.
  pub received-Counted :
      (t : Transport) (rs : List Report)
      → t.bwe ≡ true
      → Fits t
      → Counted t (received t rs) (all_packets rs)
  unfolding marked
  received-Counted t [] on f = record {
    ect0 = omega (arith, f.ect0);
    ect1 = omega (arith, f.ect1);
    ecnce = omega (arith, f.ecnce);
  }
  received-Counted t (r ∷ rs) on f =
      let c = on_ccfb-Counted t r on f in
      let u = (on_ccfb target_rate scale accepts t r).0 in
      let d = received-Counted u rs (on_ccfb-bwe t r on) (Counted-Fits t u r.packet_reports c) in
      record {
        ect0 =
            omega (arith, c.ect0, d.ect0, marked-append ecn_ect0 r.packet_reports (all_packets rs));
        ect1 =
            omega (arith, c.ect1, d.ect1, marked-append ecn_ect1 r.packet_reports (all_packets rs));
        ecnce =
            omega (arith, c.ecnce, d.ecnce, marked-append ecn_ce r.packet_reports (all_packets rs));
      }
