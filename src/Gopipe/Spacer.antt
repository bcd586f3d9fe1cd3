-- ===== src/Gopipe/Spacer.antt =====
-- gopipe/frame_spacer.go: the packets of a frame spread over time. The goroutine `run`, the callers of
-- `WriteAll` and the context's end take their steps in any order.
pub mod Order
pub mod Drain
mod Tests
use mrtp.Prelude.{
  ℕ, suc, ◌*◌, ◌/◌, ◌<◌, ◌≡◌, List, [], ◌∷◌, ◌++◌, map, Bool, true, false, Option, none, some, ltb,
  length, if◌then◌else◌,
}
use mrtp.Prelude.Int.{ℤ, pos, negsuc, sub_ℕ, ltb_ℤ}
use mrtp.Gopipe.Attributes.{Attributes}

-- `packets`.
pub record Packets : Type 0 where
  pub payloads : List (List ℕ)
  pub attributes : Attributes

-- One call of `writer.Write`, whose error is only logged.
abbrev pub Sent : Type 0
Sent = List ℕ × Attributes

-- Where `run` is: at its outer select, at a tick with packets left, returned, or in a panic.
pub data Running : Type 0 where
  idle : Running
  pacing : Packets → Running
  returned : Running
  panicked : Running

-- `pkt_chan` is the buffered channel, the oldest first.
pub record FrameSpacer : Type 0 where
  pub frame_duration : ℤ
  pub pkt_chan : List Packets
  pub running : Running
  pub sent : List Sent

abbrev pub capacity : ℕ
capacity = 1_000_000

-- The packets of a frame, each with the frame's attributes.
abbrev pub each_with : List (List ℕ) → Attributes → List Sent
each_with [] a = []
each_with (b ∷ bs) a = (b, a) ∷ each_with bs a

-- `Link`, at whose end `run` starts.
abbrev pub link_spacer : ℤ → FrameSpacer
link_spacer frame_duration = record {
  frame_duration = frame_duration;
  pkt_chan = [];
  running = idle;
  sent = [];
}

-- The period of `n` packets for a duration of `d` nanoseconds: three tenths of the microseconds for each
-- packet, in whole microseconds, without the rounding of `float64`.
abbrev pub exact_spacing : ℤ → ℕ → ℤ
exact_spacing (pos d) n = pos (3 * (d / 1000) / (10 * n) * 1000)
exact_spacing (negsuc d) n = sub_ℕ 0 (3 * (suc d / 1000) / (10 * n) * 1000)

-- `space d n` is `time.Duration(0.3 * float64(d.Microseconds()) / float64(n)) * time.Microsecond`, which
-- is `exact_spacing` but for the rounding.
module _ (space : ℤ → ℕ → ℤ) where
  -- `WriteAll`, when the channel has room.
  unfoldable pub write_all : FrameSpacer → Packets → FrameSpacer
  write_all s p = record s { pkt_chan = s.pkt_chan ++ p ∷ [] }

  -- `run` receives the packets `p`, after which `rest` is in the channel. A ticker of no positive
  -- period panics.
  unfoldable pub take_packets : FrameSpacer → Packets → List Packets → FrameSpacer
  take_packets s p rest =
      if ltb 2 (length rest)
      then record s { pkt_chan = rest; sent = s.sent ++ each_with p.payloads p.attributes }
      else if ltb_ℤ (pos 0) (space s.frame_duration (length p.payloads))
      then record s { pkt_chan = rest; running = pacing p }
      else record s { pkt_chan = rest; running = panicked }

  -- A tick with the packets `p` left.
  unfoldable pub tick : FrameSpacer → Packets → FrameSpacer
  tick s p = elim p.payloads [
    | [] ↦ record s { running = idle }
    | b ∷ (bs → hbs) ↦ record s {
      running = pacing (record p { payloads = bs });
      sent = s.sent ++ (b, p.attributes) ∷ [];
    }
  ]

  -- The list of what callers of `WriteAll` wrote is kept with the state.
  pub data Step : FrameSpacer × List Packets → FrameSpacer × List Packets → Type 0 where
    writes :
        {s : FrameSpacer} {ps : List Packets} (p : Packets)
        → length s.pkt_chan < capacity
        → Step (s, ps) (write_all s p, ps ++ p ∷ [])
    takes :
        {s : FrameSpacer} {ps : List Packets} (p : Packets) (rest : List Packets)
        → s.running ≡ idle
        → s.pkt_chan ≡ p ∷ rest
        → Step (s, ps) (take_packets s p rest, ps)
    ticks :
        {s : FrameSpacer} {ps : List Packets} (p : Packets)
        → s.running ≡ pacing p
        → Step (s, ps) (tick s p, ps)
    -- the context is done
    leaves_idle :
        {s : FrameSpacer} {ps : List Packets}
        → s.running ≡ idle
        → Step (s, ps) (record s { running = returned }, ps)
    leaves_pacing :
        {s : FrameSpacer} {ps : List Packets} (p : Packets)
        → s.running ≡ pacing p
        → Step (s, ps) (record s { running = returned }, ps)

  pub data Steps : FrameSpacer × List Packets → FrameSpacer × List Packets → Type 0 where
    here : {x : FrameSpacer × List Packets} → Steps x x
    later : {x y z : FrameSpacer × List Packets} → Steps x y → Step y z → Steps x z
