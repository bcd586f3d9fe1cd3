-- ===== src/Gopipe/Depacketizer/Loop.antt =====
-- One call of `processPackets` in gopipe/rtp_depacketizer.go, as the packets and the gaps that the
-- jitter buffer deals out, and an assembler that knows nothing of the buffer, the timeouts and the
-- payload formats.
use mathlib.Core.List.{foldl}
use mrtp.Prelude.{
  ℕ, suc, ◌+◌, ◌%◌, ◌≡◌, refl, List, [], ◌∷◌, ◌++◌, Bool, true, false, ◌&&◌, not, none, some, ◌==◌,
  ◌⊎◌, inl, inr, if◌then◌else◌, length, arith,
}
use native.Mathlib.Nat.{zero-add, add-zero}
use mrtp.Prelude.Int.{ℤ}
use mrtp.Gopipe.Codec.{CodecType}
use mrtp.Gopipe.Depacketizer.{
  Packet, JitterBuffer, Payloads, EncodedFrame, Depacketizer, packet, not_found, unmarshal, Round,
  process_round, process_loop, take_packet, miss_packet, after_pop, append_payload, start_frame,
  still_dropping, skip_packet,
}

-- A packet with the bytes of its payload, or a packet that is skipped as lost.
pub data Heard : Type 0 where
  got : Packet → List ℕ → Heard
  skipped : Heard

pub record Assembly : Type 0 where
  pub playout_ts : ℕ
  pub frame_buffer : List ℕ
  pub dropping : Bool
  pub frames : List EncodedFrame

abbrev pub emit : Packet → List ℕ → Bool → List EncodedFrame → List EncodedFrame
emit pkt buffer dropping frames =
    if pkt.marker && not dropping
    then frames ++ record { bytes = buffer; pts = pkt.timestamp } ∷ []
    else frames

-- Data of another time stamp is dropped, and so is the wish to drop.
unfoldable pub assemble : Assembly → Heard → Assembly
assemble a (got pkt bytes) =
    let buffer = (if a.playout_ts == pkt.timestamp then a.frame_buffer else []) ++ bytes in
    let dropping = if a.playout_ts == pkt.timestamp then a.dropping else false in
    record {
      playout_ts = pkt.timestamp;
      frame_buffer = buffer;
      dropping = dropping;
      frames = emit pkt buffer dropping a.frames;
    }
assemble a skipped = record a { frame_buffer = []; dropping = true }

module _ (J : JitterBuffer) (C : Payloads) where
  open J use {State, underrun, pop, playout_head, set_playout_head}
  open C use {Parsers}

  -- What the jitter buffer deals out from one state to another, with the parsers' states.
  pub data Feeds (c : CodecType) : State → Parsers → List Heard → State → Parsers → Type 0 where
    ends : {s : State} {p : Parsers} → Feeds c s p [] s p
    pops :
        {s s₁ s₂ : State} {p p₁ p₂ : Parsers} {h : List Heard} (pkt : Packet) (bytes : List ℕ)
        → underrun s ≡ false
        → pop s ≡ (s₁, packet pkt)
        → unmarshal J C c pkt.payload p ≡ (p₁, some bytes)
        → Feeds c s₁ p₁ h s₂ p₂
        → Feeds c s p (got pkt bytes ∷ h) s₂ p₂
    skips :
        {s s₁ s₂ : State} {p p₂ : Parsers} {h : List Heard}
        → underrun s ≡ false
        → pop s ≡ (s₁, not_found)
        → Feeds c (set_playout_head ((playout_head s₁ + 1) % 65536) s₁) p h s₂ p₂
        → Feeds c s p (skipped ∷ h) s₂ p₂

  abbrev pub assembly : Depacketizer J C → Bool → Assembly
  assembly d dropping = record {
    playout_ts = d.playout_ts;
    frame_buffer = d.frame_buffer;
    dropping = dropping;
    frames = d.frames;
  }

  abbrev pub IsHeard : Heard → Type 0
  IsHeard (got pkt bytes) = Unit {0}
  IsHeard skipped = ⊥

  -- Nothing is skipped, or the depacketizer is in fast-skip mode.
  abbrev pub MaySkip : Bool → List Heard → Type 0
  MaySkip fast [] = Unit {0}
  MaySkip fast (h ∷ hs) = ((fast ≡ true) ⊎ IsHeard h) × MaySkip fast hs

  abbrev taken : Depacketizer J C → Bool → State → Parsers → Packet → List ℕ → Depacketizer J C
  taken d dropping s p pkt bytes =
      append_payload J C (record (start_frame J C d pkt) { jitter_buffer = s; parsers = p }) pkt
        bytes (still_dropping J C d pkt dropping)

  round_packet :
      (now : ℤ) (d : Depacketizer J C) (dropping : Bool) (pkt : Packet) (bytes : List ℕ) {s : State}
      {p : Parsers}
      → underrun d.jitter_buffer ≡ false
      → pop d.jitter_buffer ≡ (s, packet pkt)
      → unmarshal J C d.codec pkt.payload d.parsers ≡ (p, some bytes)
      → process_round J C now d dropping
        ≡ Round.again (taken d dropping s p pkt bytes) (still_dropping J C d pkt dropping)
  unfolding process_round after_pop take_packet
  round_packet now d dropping pkt bytes more popped parsed =
      rw (more, popped, after_pop, take_packet, parsed, parsed, popped)

  round_skip :
      (now : ℤ) (d : Depacketizer J C) (dropping : Bool) {s : State}
      → underrun d.jitter_buffer ≡ false
      → pop d.jitter_buffer ≡ (s, not_found)
      → d.fast_skip ≡ true
      → process_round J C now d dropping
        ≡ Round.again (skip_packet J C (record d { jitter_buffer = s })) true
  unfolding process_round after_pop miss_packet
  round_skip now d dropping more popped fast = simp (more, popped, fast)

  pub round_underrun :
      (now : ℤ) (d : Depacketizer J C) (dropping : Bool)
      → underrun d.jitter_buffer ≡ true
      → process_round J C now d dropping
        ≡ Round.return (record d { fast_skip = false; missed_packet_time = none })
  unfolding process_round
  round_underrun now d dropping empty = simp empty

  -- What a run over `h` leaves: the buffer and the parsers where they ended, the assembler's state,
  -- and the settings as they were.
  pub record Reached (d : Depacketizer J C) (dropping : Bool) (h : List Heard) (s : State)
      (p : Parsers) (e : Depacketizer J C) (dropping' : Bool) : Type 0 where
    pub jitter : e.jitter_buffer ≡ s
    pub parsed : e.parsers ≡ p
    pub assembled : assembly e dropping' ≡ foldl assemble (assembly d dropping) h
    pub fast : e.fast_skip ≡ d.fast_skip
    pub codec : e.codec ≡ d.codec

  fast_of : {fast : Bool} → (fast ≡ true) ⊎ IsHeard skipped → fast ≡ true
  fast_of (inl e) = e
  fast_of (inr h) = absurd h

  loop_again :
      (clock : ℕ → ℤ) (fuel n k : ℕ) (d d' e : Depacketizer J C)
      (dropping dropping' dropping'' : Bool)
      → process_round J C (clock k) d dropping ≡ Round.again d' dropping'
      → process_loop J C (n + fuel) clock (k + 1) d' dropping'
        ≡ process_loop J C fuel clock (k + 1 + n) e dropping''
      → process_loop J C (suc n + fuel) clock k d dropping
        ≡ process_loop J C fuel clock (k + suc n) e dropping''
  unfolding process_loop
  loop_again clock fuel n k d d' e dropping dropping' dropping'' round runs =
      let left : suc n + fuel ≡ suc (n + fuel) = omega arith in
      let right : k + suc n ≡ k + 1 + n = omega arith in rw (left, right, process_loop, round) runs

  -- The loop deals with all that the jitter buffer feeds it in one round each, and assembles as the
  -- assembler does.
  pub process_loop-Feeds :
      (clock : ℕ → ℤ) (c : CodecType) {s s' : State} {p p' : Parsers} {h : List Heard}
      → Feeds c s p h s' p'
      → (fuel k : ℕ) (d : Depacketizer J C) (dropping : Bool) → d.jitter_buffer ≡ s
      → d.parsers ≡ p
      → d.codec ≡ c
      → MaySkip d.fast_skip h
      → (e : Depacketizer J C) × (dropping' : Bool) × (process_loop J C
            (length h + fuel)
            clock
            k
            d
            dropping
          ≡ process_loop J C fuel clock (k + length h) e dropping')
        × Reached d dropping h s' p' e dropping'
  unfolding process_loop assemble
  process_loop-Feeds clock c ends fuel k d dropping js ps cs may = (
    d,
    dropping,
    rw (zero-add, add-zero),
    record { jitter = js; parsed = ps; assembled = refl; fast = refl; codec = refl },
  )
  process_loop-Feeds clock c (pops {s₁} {p₁} {h} pkt bytes more popped parsed feeds) fuel k d
        dropping js ps cs may =
      let d' = taken d dropping s₁ p₁ pkt bytes in
      let drop' = still_dropping J C d pkt dropping in
      let round =
        round_packet (clock k) d dropping pkt bytes {s = s₁} {p = p₁} (rw js more) (rw js popped)
          (rw (cs, ps) parsed) in
      let (e, dropping', runs, r) =
        process_loop-Feeds clock c feeds fuel (k + 1) d' drop' refl refl cs may.1 in
      (
        e,
        dropping',
        loop_again clock fuel (length h) k d d' e dropping drop' dropping' round runs,
        record {
          jitter = r.jitter;
          parsed = r.parsed;
          assembled = r.assembled;
          fast = r.fast;
          codec = r.codec;
        },
      )
  process_loop-Feeds clock c (skips {s₁} {h} more popped feeds) fuel k d dropping js ps cs may =
      let d' = skip_packet J C (record d { jitter_buffer = s₁ }) in
      let round =
        round_skip (clock k) d dropping {s = s₁} (rw js more) (rw js popped) (fast_of may.0) in
      let (e, dropping', runs, r) =
        process_loop-Feeds clock c feeds fuel (k + 1) d' true refl ps cs may.1 in
      (
        e,
        dropping',
        loop_again clock fuel (length h) k d d' e dropping true dropping' round runs,
        record {
          jitter = r.jitter;
          parsed = r.parsed;
          assembled = r.assembled;
          fast = r.fast;
          codec = r.codec;
        },
      )
