-- ===== src/Gopipe/Pipeline.antt =====
-- gopipe/pipeline.go: elements that pass data on to a next one.
use mrtp.Prelude.{ℕ, List, [], ◌∷◌}
use mrtp.Prelude.Int.{ℤ}
use mrtp.Gopipe.Attributes.{Attributes, Result, ok, error, panic}

pub record Info : Type 0 where
  pub width : ℕ
  pub height : ℕ
  pub timebase_num : ℤ
  pub timebase_den : ℤ

-- `Write` of a sink, on the state that the sink and all after it keep.
abbrev pub Sink : Type 0 → Type 0
Sink W = List ℕ → Attributes → W → W × Result (Unit {0})

-- `WriteAll` of a `MultiWriter`.
abbrev pub MultiSink : Type 0 → Type 0
MultiSink W = List (List ℕ) → Attributes → W → W × Result (Unit {0})

-- `Link` of a processor, for any type of sinks.
abbrev pub Processor : Type 0 → Type 0
Processor S = S → Info → Result S

-- `Chain`.
unfoldable pub chain : {S : Type 0} → Info → S → List (Processor S) → Result S
chain i f [] = ok f
chain i f (p ∷ ps) = elim (p f i) [ ok f' ↦ chain i f' ps | error e ↦ error e | panic ↦ panic ]

-- Writes one after the other, up to the first that fails.
unfoldable pub write_each : {W : Type 0} → Sink W → MultiSink W
write_each write [] a w = (w, ok tt)
write_each write (b ∷ bs) a w =
    let (w', r) = write b a w in
    let rest = write_each write bs a w' in
    elim r [ ok x ↦ rest | error e ↦ (w', error e) | panic ↦ (w', panic) ]
