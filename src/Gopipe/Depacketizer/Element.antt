-- ===== src/Gopipe/Depacketizer/Element.antt =====
-- The pipeline element `RTPDepacketizer` of gopipe/rtp_depacketizer.go around the depacketizer.
use mrtp.Prelude.{
  ℕ, ◌≡◌, refl, ◌∙◌, ap, ◌<◌, List, [], ◌∷◌, map, length, drop, drop-length, true, Option, none,
  some,
}
use mrtp.Prelude.Int.{ℤ, pos}
use mrtp.Gopipe.Attributes.{
  Attributes, Result, ok, error, panic, no_attributes, set_attribute, pts, int64,
}
use mrtp.Gopipe.Pipeline.{Sink}
use mrtp.Gopipe.Depacketizer.{
  JitterBuffer, Payloads, Depacketizer, EncodedFrame, process_packets, returned,
}
use mrtp.Gopipe.Depacketizer.Loop.{Feeds}
use mrtp.Gopipe.Depacketizer.Frames.{Frame, heard, all_pieces, encoded, IsStream}
use mrtp.Gopipe.Depacketizer.Calls.{process_packets-IsStream}

-- `Attributes{PTS: pts}`.
abbrev stamped : EncodedFrame → Attributes
stamped f = set_attribute no_attributes pts (int64 (pos f.pts))

-- The frames that a call handed on, from the log of all of them.
abbrev handed_on :
    {J : JitterBuffer} {C : Payloads} → Depacketizer J C → Depacketizer J C → List EncodedFrame
handed_on d e = drop (length d.frames) e.frames

module _ {W : Type 0} where
  -- The callback of `NewRTPDepacketizer` on the frames of a call; `none` is an element that is not linked.
  unfoldable forward : Option (Sink W) → List EncodedFrame → W → W × Result (Unit {0})
  forward next [] w = (w, ok tt)
  forward none (f ∷ fs) w = (w, panic)
  forward (some write) (f ∷ fs) w =
      let (w₁, r) = write f.bytes (stamped f) w in
      let rest = forward (some write) fs w₁ in
      elim r [ ok x ↦ rest | error e ↦ (w₁, panic) | panic ↦ (w₁, panic) ]

  -- The writes of all frames, when none fails.
  abbrev write_all_frames : Sink W → List EncodedFrame → W → W
  write_all_frames write [] w = w
  write_all_frames write (f ∷ fs) w = write_all_frames write fs (write f.bytes (stamped f) w).0

  forward-writes :
      (write : Sink W) (fs : List EncodedFrame) (w : W)
      → ((b : List ℕ) (a : Attributes) (v : W) → (write b a v).1 ≡ ok tt)
      → forward (some write) fs w ≡ (write_all_frames write fs w, ok tt)
  unfolding forward
  forward-writes write [] w works = refl
  forward-writes write (f ∷ fs) w works = simp (
    forward,
    works f.bytes (stamped f) w,
    forward-writes write fs (write f.bytes (stamped f) w).0 works,
  )

  -- Where the jitter buffer deals out a stream of frames as `process_packets-IsStream` has it, and the
  -- element is linked to a sink that never fails, the sink is written each frame of the stream, in order,
  -- with its time stamp as an attribute, and nothing panics.
  forward-IsStream :
      (write : Sink W) (w : W)
      → ((b : List ℕ) (a : Attributes) (v : W) → (write b a v).1 ≡ ok tt)
      → (J : JitterBuffer) (C : Payloads) (clock : ℕ → ℤ) (fuel : ℕ) (d : Depacketizer J C)
        (fs : List Frame) {s : J.State} {p : C.Parsers}
      → IsStream d.playout_ts fs
      → Feeds J C d.codec d.jitter_buffer d.parsers (heard (all_pieces fs)) s p
      → J.underrun s ≡ true
      → length (heard (all_pieces fs)) < fuel
      → (e : Depacketizer J C) × ((process_packets J C fuel clock d ≡ returned e)
          × (forward (some write) (handed_on d e) w
              ≡ (write_all_frames write (map encoded fs) w, ok tt)))
  forward-IsStream write w works J C clock fuel d fs stream feeds empty enough =
      let (e, runs, frames) =
        process_packets-IsStream J C clock fuel d fs stream feeds empty enough in
      (
        e,
        (
          runs,
          ap (λ x. forward (some write) (drop (length d.frames) x) w) frames
              ∙ ap (λ x. forward (some write) x w) (drop-length d.frames (map encoded fs))
              ∙ forward-writes write (map encoded fs) w works,
        ),
      )
