-- ===== src/Gopipe/Depacketizer.antt =====
-- gopipe/rtp_depacketizer.go: RTP packets reassembled to frames. The jitter buffer and the
-- depacketizers of the payload formats are pion's, and parameters here. Times are in nanoseconds.
pub mod Loop
pub mod Frames
pub mod Calls
pub mod Losses
pub mod Timeouts
pub mod Element
use mrtp.Prelude.{
  ℕ, zero, suc, ◌+◌, ◌*◌, ◌/◌, ◌%◌, List, [], ◌∷◌, ◌++◌, Bool, true, false, ◌&&◌, not, Option, none,
  some, ◌==◌, ltb, if◌then◌else◌,
}
use mrtp.Prelude.Int.{ℤ, pos, negsuc, ◌-ℤ◌, ltb_ℤ, leb_ℤ}
use mrtp.Logging.Unwrapper.{Unwrapper, new_unwrapper, unwrap}
use mrtp.Gopipe.Codec.{CodecType, vp8, vp9, h264, fake, unknown_codec}

pub record Packet : Type 0 where
  pub sequence_number : ℕ
  pub timestamp : ℕ
  pub marker : Bool
  pub payload : List ℕ

-- What `Pop` returns: a packet, `ErrPopWhileBuffering`, `ErrNotFound`, or another error.
pub data Popped : Type 0 where
  packet : Packet → Popped
  pop_while_buffering : Popped
  not_found : Popped
  other_error : Popped

-- pion's jitter buffer. `underrun` is whether `Peek(true)` returns `ErrBufferUnderrun`.
pub record JitterBuffer : Type 1 where
  pub State : Type 0
  pub push : Packet → State → State
  pub underrun : State → Bool
  pub pop : State → State × Popped
  pub playout_head : State → ℕ
  pub set_playout_head : ℕ → State → State

-- pion's payload depacketizers, which keep state; `none` is an error.
pub record Payloads : Type 1 where
  pub Parsers : Type 0
  pub new_parsers : Parsers
  pub unmarshal_vp8 : List ℕ → Parsers → Parsers × Option (List ℕ)
  pub unmarshal_vp9 : List ℕ → Parsers → Parsers × Option (List ℕ)
  pub unmarshal_h264 : List ℕ → Parsers → Parsers × Option (List ℕ)

-- One call of `onFrame`.
pub record EncodedFrame : Type 0 where
  pub bytes : List ℕ
  pub pts : ℕ

module _ (J : JitterBuffer) (C : Payloads) where
  open J use {State, push, underrun, pop, playout_head, set_playout_head}
  open C use {Parsers, new_parsers, unmarshal_vp8, unmarshal_vp9, unmarshal_h264}

  pub record Depacketizer : Type 0 where
    pub jitter_buffer : State
    pub frame_buffer : List ℕ
    pub trigger : Bool
    pub missed_packet_time : Option ℤ
    pub fast_skip : Bool
    pub playout_ts : ℕ
    pub codec : CodecType
    pub max_timeout : ℤ
    pub current_timeout : ℤ
    pub parsers : Parsers
    pub unwrapper : Unwrapper
    pub frames : List EncodedFrame

  abbrev pub is_supported : CodecType → Bool
  is_supported unknown_codec = false
  is_supported _ = true

  -- `none` is the error for an unsupported codec.
  unfoldable pub new_rtp_depacketizer : State → ℤ → CodecType → Option Depacketizer
  new_rtp_depacketizer jitter_buffer max_timeout c =
      if is_supported c
      then some (record {
        jitter_buffer = jitter_buffer;
        frame_buffer = [];
        trigger = false;
        missed_packet_time = none;
        fast_skip = false;
        playout_ts = 0;
        codec = c;
        max_timeout = max_timeout;
        current_timeout = max_timeout;
        parsers = new_parsers;
        unwrapper = new_unwrapper;
        frames = [];
      })
      else none

  -- `time.Duration(float64(rtt) * 1.5)` of a positive duration; exact below 2 ^ 51 ns.
  abbrev pub times_one_and_half : ℤ → ℤ
  times_one_and_half (pos n) = pos (n * 3 / 2)
  times_one_and_half (negsuc n) = negsuc n

  unfoldable pub update_rtt : Depacketizer → ℤ → Depacketizer
  update_rtt d rtt =
      let timeout = times_one_and_half rtt in
      if leb_ℤ rtt (pos 0) then d else record d {
        current_timeout = if ltb_ℤ d.max_timeout timeout then d.max_timeout else timeout;
      }

  -- `Write` of a buffer that parses to a packet; `none` is the parser's error.
  unfoldable pub write : Depacketizer → Option Packet → Depacketizer × Bool
  write d none = (d, false)
  write d (some pkt) = (record d { jitter_buffer = push pkt d.jitter_buffer; trigger = true }, true)

  unfoldable pub unmarshal : CodecType → List ℕ → Parsers → Parsers × Option (List ℕ)
  unmarshal vp8 payload p = unmarshal_vp8 payload p
  unmarshal vp9 payload p = unmarshal_vp9 payload p
  unmarshal h264 payload p = unmarshal_h264 payload p
  unmarshal fake payload p = (p, some payload)
  unmarshal unknown_codec payload p = (p, some [])

  -- What one round of the loop comes to: another round, with `droppingFrame`; a return; a panic.
  pub data Round : Type 0 where
    again : Depacketizer → Bool → Round
    return : Depacketizer → Round
    panic : Round

  -- `SetPlayoutHead(playoutHead + 1)` on a `uint16`, and the frame's data dropped.
  abbrev pub skip_packet : Depacketizer → Depacketizer
  skip_packet d = record d {
    jitter_buffer = set_playout_head ((playout_head d.jitter_buffer + 1) % 65536) d.jitter_buffer;
    frame_buffer = [];
  }

  -- A missing packet, at the time `now`.
  unfoldable pub miss_packet : ℤ → Depacketizer → Bool → Round
  miss_packet now d dropping =
      if d.fast_skip then again (skip_packet d) true else elim d.missed_packet_time [
        | none ↦ return (record d { missed_packet_time = some now })
        | some since ↦
            if ltb_ℤ d.current_timeout (now -ℤ since)
            then again (record (skip_packet d) { fast_skip = true }) true
            else return d
      ]

  abbrev pub clear_missed : Depacketizer → Option ℤ
  clear_missed d = if d.fast_skip then d.missed_packet_time else none

  -- `d.playoutTs != pkt.Timestamp`: a new frame starts.
  abbrev pub start_frame : Depacketizer → Packet → Depacketizer
  start_frame d pkt = record d {
    playout_ts = pkt.timestamp;
    frame_buffer = if d.playout_ts == pkt.timestamp then d.frame_buffer else [];
    missed_packet_time = clear_missed d;
    unwrapper = (unwrap d.unwrapper pkt.sequence_number).0;
  }

  abbrev pub still_dropping : Depacketizer → Packet → Bool → Bool
  still_dropping d pkt dropping = if d.playout_ts == pkt.timestamp then dropping else false

  -- The payload appended, and the frame handed on at its end.
  abbrev pub append_payload : Depacketizer → Packet → List ℕ → Bool → Depacketizer
  append_payload d pkt bytes dropping =
      let buffer = d.frame_buffer ++ bytes in
      record d {
        frame_buffer = buffer;
        frames =
            if pkt.marker && not dropping
            then d.frames ++ record { bytes = buffer; pts = pkt.timestamp } ∷ []
            else d.frames;
      }

  unfoldable pub take_packet : Depacketizer → Bool → Packet → Round
  take_packet d dropping pkt =
      let (parsers, result) = unmarshal d.codec pkt.payload d.parsers in
      elim result [
        | none ↦ panic
        | some bytes ↦
            again
              (append_payload (record (start_frame d pkt) { parsers = parsers }) pkt bytes
                (still_dropping d pkt dropping))
              (still_dropping d pkt dropping)
      ]

  unfoldable pub after_pop : ℤ → Depacketizer → Bool → Popped → Round
  after_pop now d dropping (packet pkt) = take_packet d dropping pkt
  after_pop now d dropping pop_while_buffering = return d
  after_pop now d dropping not_found = miss_packet now d dropping
  after_pop now d dropping other_error = return d

  -- The body of the loop of `processPackets`.
  unfoldable pub process_round : ℤ → Depacketizer → Bool → Round
  process_round now d dropping =
      let (rest, popped) = pop d.jitter_buffer in
      if underrun d.jitter_buffer
      then return (record d { fast_skip = false; missed_packet_time = none })
      else after_pop now (record d { jitter_buffer = rest }) dropping popped

  pub data Outcome : Type 0 where
    returned : Depacketizer → Outcome
    panicked : Outcome
    out_of_fuel : Outcome

  -- The loop, on fuel; `clock k` is what round `k` reads as the time.
  unfoldable pub process_loop : ℕ → (ℕ → ℤ) → ℕ → Depacketizer → Bool → Outcome
  process_loop zero clock k d dropping = out_of_fuel
  process_loop (suc fuel) clock k d dropping = elim (process_round (clock k) d dropping) [
    | again d' dropping' ↦ process_loop fuel clock (k + 1) d' dropping'
    | return d' ↦ returned d'
    | panic ↦ panicked
  ]

  -- `processPackets`, which `Run` calls once for each trigger.
  unfoldable pub process_packets : ℕ → (ℕ → ℤ) → Depacketizer → Outcome
  process_packets fuel clock d = process_loop fuel clock 0 (record d { trigger = false }) false
