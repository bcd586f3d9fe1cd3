-- ===== src/Quic/Feedback.antt =====
-- internal/quictransport/transport.go: which packets are in flight, what became of them, and the
-- reports of that to the bandwidth estimator. Times are in nanoseconds, and `pos 0` is the zero
-- `time.Time`. The estimator is seen through the calls that it gets, and its target rate is a
-- function of these.
pub mod Sorted
pub mod Edit
pub mod Report
pub mod Effect
pub mod Invariant
pub mod Outcome
use mrtp.Prelude.{
  ℕ, zero, suc, ◌+◌, ◌%◌, ◌^◌, ◌<◌, ◌≡◌, List, [], ◌∷◌, ◌++◌, Bool, true, false, Option, none, some,
  ltb, if◌then◌else◌, length, get_elem?, drop,
}
use mrtp.Prelude.Int.{ℤ, pos, negsuc, ◌-ℤ◌, ltb_ℤ, sub64, to_int64, to_uint64}
use mrtp.Slices.{binary_search, insert_at, delete_at, modify_at}

pub record PacketFeedback : Type 0 where
  pub seq_nr : ℕ
  pub size : ℕ
  pub arrived : Bool
  pub departure : ℤ
  pub arrival : ℤ

-- The calls of the interface `mrtp.BWE`.
pub data BweCall : Type 0 where
  on_ack : ℕ → ℤ → ℤ → ℤ → ℕ → BweCall
  on_loss : ℕ → ℤ → ℤ → BweCall
  update_rtt : ℤ → BweCall
  update_ecn_counts : ℕ → ℕ → ℕ → BweCall
  update_target_rate : ℤ → BweCall

pub record Transport : Type 0 where
  pub quic_conn : Bool
  pub bwe : Bool
  pub set_source_target_rate : Bool
  pub last_bwe_update : ℤ
  pub in_flight_packets : List PacketFeedback
  pub lowest_in_flight : ℕ
  pub highest_acked : ℕ
  pub packet_feedback : List PacketFeedback
  pub bwe_calls : List BweCall
  pub source_rates : List ℕ
  pub pacing_rates : List ℕ

-- `int(a.seqNr - b)`.
abbrev pub cmp_seq : ℕ → PacketFeedback → ℤ
cmp_seq b a = to_int64 (sub64 a.seq_nr b)

unfoldable pub find_seq : ℕ → List PacketFeedback → ℕ × Bool
find_seq seq xs = binary_search xs (cmp_seq seq)

-- The entry that `packetSent` makes.
abbrev pub sent_entry : ℤ → ℕ → ℕ → PacketFeedback
sent_entry ts seq size = record {
  seq_nr = seq;
  size = size;
  arrived = false;
  departure = ts;
  arrival = pos 0;
}

unfoldable pub packet_sent : Transport → ℤ → ℕ → ℕ → Transport
packet_sent t ts seq size =
    let (idx, found) = find_seq seq t.in_flight_packets in
    if found
    then t
    else record t { in_flight_packets = insert_at idx (sent_entry ts seq size) t.in_flight_packets }

-- `arrived = false` on an entry that is there, or the entry inserted.
unfoldable pub record_loss : PacketFeedback → ℕ → List PacketFeedback → List PacketFeedback
record_loss feedback seq xs =
    let (idx, found) = find_seq seq xs in
    if found
    then modify_at idx (λ f. record f { arrived = false }) xs
    else insert_at idx feedback xs

unfoldable pub packet_lost : Transport → ℕ → Transport
packet_lost t seq =
    let (idx, found) = find_seq seq t.in_flight_packets in
    if ltb seq t.lowest_in_flight
    then t
    else if found
    then elim (get_elem? t.in_flight_packets idx) [
      | none ↦ t
      | some feedback ↦ record t {
        in_flight_packets = delete_at idx t.in_flight_packets;
        packet_feedback = record_loss feedback seq t.packet_feedback;
      }
    ]
    else t

abbrev pub acked : ℤ → PacketFeedback → PacketFeedback
acked arrival f = record f { arrived = true; arrival = arrival }

unfoldable pub record_ack : PacketFeedback → ℕ → ℤ → List PacketFeedback → List PacketFeedback
record_ack feedback seq arrival xs =
    let (idx, found) = find_seq seq xs in
    if found then modify_at idx (acked arrival) xs else insert_at idx feedback xs

abbrev pub raise_highest : Transport → ℕ → Transport
raise_highest t seq = record t {
  highest_acked = if ltb t.highest_acked seq then seq else t.highest_acked;
}

unfoldable pub packet_acked : Transport → ℕ → ℤ → Transport
packet_acked t seq arrival =
    let u = raise_highest t seq in
    let (idx, found) = find_seq seq t.in_flight_packets in
    if ltb seq t.lowest_in_flight
    then u
    else if found
    then elim (get_elem? t.in_flight_packets idx) [
      | none ↦ u
      | some feedback ↦ record u {
        in_flight_packets = delete_at idx t.in_flight_packets;
        packet_feedback = record_ack (acked arrival feedback) seq arrival t.packet_feedback;
      }
    ]
    else u

unfoldable pub update_ecn_counts_of : Transport → ℕ → ℕ → ℕ → Transport
update_ecn_counts_of t ect0 ect1 ce =
    if t.bwe then record t { bwe_calls = t.bwe_calls ++ update_ecn_counts ect0 ect1 ce ∷ [] } else t

abbrev pub report_of : PacketFeedback → BweCall
report_of f =
    if f.arrived
    then on_ack f.seq_nr (to_int64 f.size) f.departure f.arrival 0
    else on_loss f.seq_nr (to_int64 f.size) f.departure

-- The loop of `updateBWE` at index `i`: the final `idx`, which only the `break` sets, and the calls.
unfoldable pub report_loop : ℕ → ℕ → ℕ → List PacketFeedback → ℕ × List BweCall
report_loop highest lowest i [] = (0, [])
report_loop highest lowest i (f ∷ fs) =
    let rest = report_loop highest lowest (i + 1) fs in
    if ltb highest f.seq_nr
    then (i, [])
    else if ltb f.seq_nr lowest
    then rest
    else (rest.0, report_of f ∷ rest.1)

-- `updateBWE` past its guard on the time: the loop, and what follows it.
unfoldable pub report_feedback : Transport → ℤ → ℤ → Transport
report_feedback t rtt now =
    let (idx, calls) = report_loop t.highest_acked t.lowest_in_flight 0 t.packet_feedback in
    record t {
      packet_feedback = drop idx t.packet_feedback;
      lowest_in_flight = (t.highest_acked + 1) % 2 ^ 64;
      bwe_calls = t.bwe_calls ++ (calls ++ update_rtt rtt ∷ update_target_rate now ∷ []);
    }

-- 20 ms.
abbrev pub update_interval : ℤ
update_interval = pos 20_000_000

module _ (target_rate : List BweCall → ℤ) where
  unfoldable pub update_bwe : Transport → ℤ → ℤ → Transport × ℕ
  update_bwe t rtt now =
      let u = report_feedback t rtt now in
      if ltb_ℤ (now -ℤ t.last_bwe_update) update_interval
      then (t, 0)
      else (u, to_uint64 (target_rate u.bwe_calls))

  -- `updateCongestionControl`; `pace` is `uint64(t.pacingFactor() * float64(target))`, and an error
  -- of the callback is only logged.
  unfoldable pub update_congestion_control : (ℕ → ℕ) → Transport → ℤ → ℤ → Transport
  update_congestion_control pace t rtt now =
      let (u, target) = update_bwe t rtt now in
      if t.quic_conn
      then if t.bwe
        then if ltb 0 target
          then record u {
            last_bwe_update = now;
            source_rates =
                if u.set_source_target_rate then u.source_rates ++ target ∷ [] else u.source_rates;
            pacing_rates = u.pacing_rates ++ pace target ∷ [];
          }
          else u
        else t
      else t
