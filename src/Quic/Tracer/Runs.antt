-- ===== src/Quic/Tracer/Runs.antt =====
-- Whole histories of a connection, as the sequence of the events that `record` of
-- internal/quictransport/tracer.go handles.
use mrtp.Prelude.{
  ℕ, suc, ◌<◌, ◌≡◌, refl, List, [], ◌∷◌, ◌++◌, Bool, false, ◌||◌, All, contains, arith,
}
use mrtp.Prelude.Int.{ℤ, pos}
use mrtp.Quic.Feedback.{BweCall, Transport}
use mrtp.Quic.Feedback.Report.{reported, Climbs}
use mrtp.Quic.Feedback.Invariant.{Inv}
use mrtp.Quic.Tracer.{QlogEvent, record_event}
use mrtp.Quic.Tracer.Acks.{EventFits, record_event-Inv}
use mrtp.Quic.Tracer.Extends.{Extends, Extends-same, Extends-trans, record_event-Extends}

-- The transport before its first event.
unfoldable pub start : Bool → Bool → Bool → Transport
start quic_conn bwe source = record {
  quic_conn = quic_conn;
  bwe = bwe;
  set_source_target_rate = source;
  last_bwe_update = pos 0;
  in_flight_packets = [];
  lowest_in_flight = 0;
  highest_acked = 0;
  packet_feedback = [];
  bwe_calls = [];
  source_rates = [];
  pacing_rates = [];
}

-- An event with its time stamp, and the round-trip time and the clock that its handling reads.
pub record Tick : Type 0 where
  pub ts : ℤ
  pub rtt : ℤ
  pub now : ℤ
  pub event : QlogEvent

module _ (target_rate : List BweCall → ℤ) (pace : ℕ → ℕ) (base : ℤ) where
  abbrev pub tick : Transport → Tick → Transport
  tick t k = record_event target_rate pace base k.ts k.rtt k.now k.event t

  unfoldable pub run : Transport → List Tick → Transport
  run t [] = t
  run t (k ∷ ks) = run (tick t k) ks

  pub run-Inv :
      (t : Transport) (ks : List Tick) → All (λ k. EventFits k.event) ks → Inv t → Inv (run t ks)
  unfolding run
  run-Inv t [] fits v = v
  run-Inv t (k ∷ ks) fits v =
      run-Inv (tick t k) ks fits.1
        (record_event-Inv base target_rate pace k.ts k.rtt k.now k.event t fits.0 v)

  pub run-Extends :
      (t : Transport) (ks : List Tick)
      → All (λ k. EventFits k.event) ks
      → Inv t
      → Extends t (run t ks)
  unfolding run
  run-Extends t [] fits v = Extends-same refl refl
  run-Extends t (k ∷ ks) fits v =
      Extends-trans (record_event-Extends target_rate pace base k.ts k.rtt k.now k.event t fits.0 v)
        (run-Extends (tick t k) ks fits.1
          (record_event-Inv base target_rate pace k.ts k.rtt k.now k.event t fits.0 v))

start-Inv : (quic_conn bwe source : Bool) → Inv (start quic_conn bwe source)
unfolding start reported
start-Inv quic_conn bwe source = record {
  in_flight = tt;
  feedback = tt;
  low = omega arith;
  small = omega arith;
  climbs = omega arith;
}

-- After any history of events, from the start of a connection, with packet numbers below 2 ^ 62 and
-- time stamp ranges within the acknowledged numbers, the sequence numbers that were reported to the
-- bandwidth estimator are strictly ascending and below the window: each packet is reported once at
-- most, as arrived or as lost, and in the order of its number.
pub reported-run-Climbs :
    (target_rate : List BweCall → ℤ) (pace : ℕ → ℕ) (base : ℤ) (quic_conn bwe source : Bool)
    (ks : List Tick)
    → All (λ k. EventFits k.event) ks
    → let t = run target_rate pace base (start quic_conn bwe source) ks in
      Climbs 0 (reported t.bwe_calls) t.lowest_in_flight
reported-run-Climbs target_rate pace base quic_conn bwe source ks fits =
    (run-Inv target_rate pace base _ ks fits (start-Inv quic_conn bwe source)).climbs

contains-append :
    (q : ℕ) (xs ys : List ℕ) → contains q (xs ++ ys) ≡ (contains q xs || contains q ys)
unfolding contains
contains-append q [] ys = refl
contains-append q (x ∷ xs) ys = ground (arith, contains-append q xs ys)

contains-Climbs : (q lo hi : ℕ) (xs : List ℕ) → Climbs lo xs hi → q < lo → contains q xs ≡ false
unfolding contains
contains-Climbs q lo hi [] c h = refl
contains-Climbs q lo hi (x ∷ xs) c h = ground (arith, contains-Climbs q (suc x) hi xs c.1)

-- In a state with the invariant, a packet below the window that has not been reported never is,
-- whatever events follow (with packet numbers below 2 ^ 62 and time stamp ranges within the
-- acknowledged numbers), acknowledgments and losses of it among them.
pub contains-run_below :
    (target_rate : List BweCall → ℤ) (pace : ℕ → ℕ) (base : ℤ) (t : Transport) (ks : List Tick)
    (q : ℕ)
    → All (λ k. EventFits k.event) ks
    → Inv t
    → q < t.lowest_in_flight
    → contains q (reported t.bwe_calls) ≡ false
    → contains q (reported (run target_rate pace base t ks).bwe_calls) ≡ false
contains-run_below target_rate pace base t ks q fits v below absent =
    let x = run-Extends target_rate pace base t ks fits v in
    rw (
      x.grown,
      contains-append,
      absent,
      contains-Climbs q t.lowest_in_flight (run target_rate pace base t ks).lowest_in_flight x.new
          x.climbs below,
    )
