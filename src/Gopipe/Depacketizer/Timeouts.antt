-- ===== src/Gopipe/Depacketizer/Timeouts.antt =====
-- Waiting for a missing packet, and the end of the loop of `processPackets` in
-- gopipe/rtp_depacketizer.go.
use mrtp.Prelude.{
  ℕ, zero, suc, ◌+◌, ◌%◌, ◌<◌, ◌≡◌, ◌≢◌, refl, ◌∙◌, inl, inr, Bool, true, false, none, some,
  Bool-cases, Option-cases, if◌then◌else◌, arith,
}
use mrtp.Prelude.Int.{ℤ, ◌-ℤ◌, ltb_ℤ}
use mrtp.Gopipe.Depacketizer.{
  Packet, JitterBuffer, Payloads, Popped, packet, pop_while_buffering, not_found, other_error,
  Depacketizer, skip_packet, miss_packet, take_packet, after_pop, Round, again, return, panic,
  process_round, returned, out_of_fuel, process_loop, process_packets, unmarshal,
}

-- What ends the loop: each packet popped, and each gap skipped, brings the buffer nearer to its end
-- by some measure.
pub record Shrinks (J : JitterBuffer) : Type 0 where
  pub size : J.State → ℕ
  pub size-pop :
      (s : J.State) {s' : J.State} {pkt : Packet}
      → J.underrun s ≡ false
      → J.pop s ≡ (s', packet pkt)
      → size s' < size s
  pub size-skip :
      (s : J.State) {s' : J.State}
      → J.underrun s ≡ false
      → J.pop s ≡ (s', not_found)
      → size (J.set_playout_head ((J.playout_head s' + 1) % 65536) s') < size s

module _ (J : JitterBuffer) (C : Payloads) where
  take_packet-again :
      (d e : Depacketizer J C) (dropping dropping' : Bool) (pkt : Packet)
      → take_packet J C d dropping pkt ≡ again e dropping'
      → e.jitter_buffer ≡ d.jitter_buffer
  unfolding take_packet
  take_packet-again d e dropping dropping' pkt h =
      elim (Option-cases (unmarshal J C d.codec pkt.payload d.parsers).1) [
        | inl x ↦ ground arith
        | inr (bytes, x) ↦ ground arith
      ]

  miss_packet-again :
      (now : ℤ) (d e : Depacketizer J C) (dropping dropping' : Bool)
      → miss_packet J C now d dropping ≡ again e dropping'
      → e.jitter_buffer ≡ (skip_packet J C d).jitter_buffer
  unfolding miss_packet
  miss_packet-again now d e dropping dropping' h = ground arith

  module _ (shrinks : Shrinks J) where
    open shrinks use {size, size-pop, size-skip}

    after_pop-again :
        (now : ℤ) (d e : Depacketizer J C) (dropping dropping' : Bool) (s : J.State) (r : Popped)
        → J.underrun d.jitter_buffer ≡ false
        → J.pop d.jitter_buffer ≡ (s, r)
        → after_pop J C now (record d { jitter_buffer = s }) dropping r ≡ again e dropping'
        → size e.jitter_buffer < size d.jitter_buffer
    unfolding after_pop
    after_pop-again now d e dropping dropping' s (packet pkt) more popped h =
        rw (take_packet-again (record d { jitter_buffer = s }) e dropping dropping' pkt h)
          (size-pop d.jitter_buffer more popped)
    after_pop-again now d e dropping dropping' s pop_while_buffering more popped h = cc
    after_pop-again now d e dropping dropping' s not_found more popped h =
        rw (miss_packet-again now (record d { jitter_buffer = s }) e dropping dropping' h)
          (size-skip d.jitter_buffer more popped)
    after_pop-again now d e dropping dropping' s other_error more popped h = cc

    process_round-again :
        (now : ℤ) (d e : Depacketizer J C) (dropping dropping' : Bool)
        → process_round J C now d dropping ≡ again e dropping'
        → size e.jitter_buffer < size d.jitter_buffer
    unfolding process_round
    process_round-again now d e dropping dropping' h =
        elim (Bool-cases (J.underrun d.jitter_buffer)) [
          | inl empty ↦ cc (simp empty at h)
          | inr more ↦
              after_pop-again now d e dropping dropping' (J.pop d.jitter_buffer).0
                (J.pop d.jitter_buffer).1 more refl (simp more at h)
        ]

    -- Where each packet popped and each packet skipped brings the jitter buffer nearer to its end by
    -- some measure, the loop never runs out of rounds when it has more of them than that measure: it
    -- returns, or it panics.
    pub process_loop_total :
        (clock : ℕ → ℤ) (fuel k : ℕ) (d : Depacketizer J C) (dropping : Bool)
        → size d.jitter_buffer < fuel
        → process_loop J C fuel clock k d dropping ≢ out_of_fuel
    unfolding process_loop
    process_loop_total clock zero k d dropping enough = absurd (omega arith)
    process_loop_total clock (suc fuel) k d dropping enough =
        go (process_loop_total clock fuel (k + 1)) (process_round J C (clock k) d dropping) refl
      where
        go :
            ((e : Depacketizer J C) (dropping' : Bool)
              → size e.jitter_buffer < fuel
              → process_loop J C fuel clock (k + 1) e dropping' ≢ out_of_fuel)
            → (r : Round J C) → process_round J C (clock k) d dropping ≡ r
            → process_loop J C (suc fuel) clock k d dropping ≢ out_of_fuel
        go rec (again e dropping') x =
            rw (process_loop, x)
              (rec e dropping'
                (omega (arith, process_round-again (clock k) d e dropping dropping' x)))
        go rec (return e) x = rw (process_loop, x) (λ h. cc)
        go rec panic x = rw (process_loop, x) (λ h. cc)

  round_missing :
      (now : ℤ) (d : Depacketizer J C) (dropping : Bool)
      → J.underrun d.jitter_buffer ≡ false
      → J.pop d.jitter_buffer ≡ (d.jitter_buffer, not_found)
      → process_round J C now d dropping ≡ miss_packet J C now d dropping
  unfolding process_round after_pop
  round_missing now d dropping more missing = rw (more, missing, after_pop, missing)

  module _ (now : ℤ) (d : Depacketizer J C) (dropping : Bool) where
    miss_first :
        d.fast_skip ≡ false
        → d.missed_packet_time ≡ none
        → miss_packet J C now d dropping ≡ return (record d { missed_packet_time = some now })
    unfolding miss_packet
    miss_first slow none_yet = ground arith

    module _ (since : ℤ) (slow : d.fast_skip ≡ false)
        (timer : d.missed_packet_time ≡ some since) where
      miss_waiting :
          ltb_ℤ d.current_timeout (now -ℤ since) ≡ false → miss_packet J C now d dropping ≡ return d
      unfolding miss_packet
      miss_waiting x = simp (slow, timer, x)

      miss_expired :
          ltb_ℤ d.current_timeout (now -ℤ since) ≡ true
          → miss_packet J C now d dropping
            ≡ again (record (skip_packet J C d) { fast_skip = true }) true
      unfolding miss_packet
      miss_expired x = simp (slow, timer, x)

  module _ (clock : ℕ → ℤ) (fuel k : ℕ) (d e : Depacketizer J C) (dropping : Bool) where
    loop_return :
        process_round J C (clock k) d dropping ≡ return e
        → process_loop J C (suc fuel) clock k d dropping ≡ returned e
    unfolding process_loop
    loop_return x = rw (process_loop, x)

    loop_once :
        (dropping' : Bool)
        → process_round J C (clock k) d dropping ≡ again e dropping'
        → process_loop J C (suc fuel) clock k d dropping
          ≡ process_loop J C fuel clock (k + 1) e dropping'
    unfolding process_loop
    loop_once dropping' x = rw (process_loop, x)

  -- Where the next packet of a non-empty jitter buffer is missing (`Pop` finds nothing and changes
  -- nothing), the depacketizer is not in fast-skip mode and no timer runs, a call starts the timer
  -- with the time it reads and returns. A further call on the buffer as it is then changes nothing
  -- and returns while the timer has not run out; once it has, the call skips one packet, drops
  -- the data of the frame so far, and goes on in fast-skip mode, dropping the rest of the frame.
  process_packets_waits :
      (clock clock' : ℕ → ℤ) (fuel : ℕ) (d : Depacketizer J C)
      → J.underrun d.jitter_buffer ≡ false
      → J.pop d.jitter_buffer ≡ (d.jitter_buffer, not_found)
      → d.fast_skip ≡ false
      → d.missed_packet_time ≡ none
      → let w = record d { trigger = false; missed_packet_time = some (clock 0) } in
        (process_packets J C (suc fuel) clock d ≡ returned w)
        × (process_packets J C (suc fuel) clock' w ≡ (
            if ltb_ℤ d.current_timeout (clock' 0 -ℤ clock 0)
            then process_loop J C fuel clock' 1
                (record (skip_packet J C w) { fast_skip = true })
                true
            else returned w))
  unfolding process_packets
  process_packets_waits clock clock' fuel d more missing slow none_yet =
      let d' = record d { trigger = false } in
      let w = record d' { missed_packet_time = some (clock 0) } in
      (
        loop_return clock fuel 0 d' w false (
            round_missing (clock 0) d' false more missing
            ∙ miss_first (clock 0) d' false slow none_yet),
        elim (Bool-cases (ltb_ℤ d.current_timeout (clock' 0 -ℤ clock 0))) [
          | inl x ↦
              loop_once clock' fuel 0 w _ false true (
                round_missing (clock' 0) w false more missing
                ∙ miss_expired (clock' 0) w false (clock 0) slow refl x)
              ∙ rw x
          | inr x ↦
              loop_return clock' fuel 0 w w false (
                round_missing (clock' 0) w false more missing
                ∙ miss_waiting (clock' 0) w false (clock 0) slow refl x)
              ∙ rw x
        ],
      )
