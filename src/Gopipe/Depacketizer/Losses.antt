-- ===== src/Gopipe/Depacketizer/Losses.antt =====
-- Calls of `processPackets` of gopipe/rtp_depacketizer.go in fast-skip mode, over a stream with a
-- packet missing.
use mathlib.Core.List.{foldl}
use mrtp.Prelude.{ℕ, ◌<◌, ◌≡◌, ◌≢◌, refl, ap, ◌∙◌, inl, List, [], ◌∷◌, ◌++◌, true, false, length}
use mrtp.Prelude.Int.{ℤ}
use mrtp.Gopipe.Depacketizer.{JitterBuffer, Payloads, Depacketizer, returned, process_packets}
use mrtp.Gopipe.Depacketizer.Loop.{skipped, Assembly, assemble, Feeds, assembly}
use mrtp.Gopipe.Depacketizer.Frames.{
  Piece, heard, IsBody, IsEnd, all_bytes, foldl-body, foldl-rest, foldl-frame, Frame, pieces,
  encoded,
}
use mrtp.Gopipe.Depacketizer.Calls.{MaySkip-heard, Drained, process_packets-Drained}

module _ (J : JitterBuffer) (C : Payloads) (clock : ℕ → ℤ) (fuel : ℕ) (d : Depacketizer J C)
    (fast : d.fast_skip ≡ true) where
  Drained-after_skip :
      (cs : List Piece) {s : J.State} {p : C.Parsers}
      → Feeds J C d.codec d.jitter_buffer d.parsers (skipped ∷ heard cs) s p
      → J.underrun s ≡ true
      → length (skipped ∷ heard cs) < fuel
      → (e : Depacketizer J C) × (process_packets J C fuel clock d ≡ returned e)
        × Drained J C d (skipped ∷ heard cs) s p e
  Drained-after_skip cs feeds empty enough =
      process_packets-Drained J C clock d feeds (inl fast, MaySkip-heard J C d.fast_skip cs) empty
        fuel enough

  abbrev skip : Assembly
  skip = record { playout_ts = d.playout_ts; frame_buffer = []; dropping = true; frames = d.frames }

  foldl-skipped :
      (cs : List Piece)
      → foldl assemble (assembly J C d false) (skipped ∷ heard cs) ≡ foldl assemble skip (heard cs)
  unfolding assemble
  foldl-skipped cs = refl

  -- In fast-skip mode, where the jitter buffer misses a packet, then deals out the rest of the frame
  -- whose time stamp is the current one, up to its marker, and is empty then, a call with more rounds
  -- than that hands on no frame.
  pub process_packets_drops_rest :
      (body : List Piece) (last : Piece) {s : J.State} {p : C.Parsers}
      → IsBody d.playout_ts body
      → IsEnd d.playout_ts last.packet
      → Feeds J C d.codec d.jitter_buffer d.parsers (skipped ∷ heard (body ++ last ∷ [])) s p
      → J.underrun s ≡ true
      → length (skipped ∷ heard (body ++ last ∷ [])) < fuel
      → (e : Depacketizer J C) × (process_packets J C fuel clock d ≡ returned e)
        × (e.frames ≡ d.frames)
  process_packets_drops_rest body last b en feeds empty enough =
      let (e, runs, r) = Drained-after_skip (body ++ last ∷ []) feeds empty enough in
      (
        e,
        runs,
        r.frames
            ∙ ap (λ (x : Assembly). x.frames)
                (foldl-skipped (body ++ last ∷ []) ∙ foldl-rest skip body last b en),
      )

  -- In fast-skip mode, where the jitter buffer misses a packet, then deals out packets of a frame with
  -- another time stamp than the current one, up to its marker, and is empty then, a call with more
  -- rounds than that hands those packets on as a whole frame, whether the missing packet was its first
  -- one or not.
  process_packets_truncates :
      (f : Frame) {s : J.State} {p : C.Parsers}
      → f.ts ≢ d.playout_ts
      → IsBody f.ts f.body
      → IsEnd f.ts f.last.packet
      → Feeds J C d.codec d.jitter_buffer d.parsers (skipped ∷ heard (pieces f)) s p
      → J.underrun s ≡ true
      → length (skipped ∷ heard (pieces f)) < fuel
      → (e : Depacketizer J C) × (process_packets J C fuel clock d ≡ returned e)
        × (e.frames ≡ d.frames ++ encoded f ∷ [])
  process_packets_truncates f new b en feeds empty enough =
      let (e, runs, r) = Drained-after_skip (pieces f) feeds empty enough in
      (
        e,
        runs,
        r.frames
            ∙ ap (λ (x : Assembly). x.frames)
                (foldl-skipped (pieces f) ∙ foldl-frame skip f.ts f.body f.last new b en),
      )

  abbrev begun_frame : List ℕ → Assembly
  begun_frame bytes = record skip { frame_buffer = bytes; dropping = false }

  begun :
      (e : Depacketizer J C) {bytes : List ℕ}
      → e.playout_ts ≡ d.playout_ts
      → e.frame_buffer ≡ bytes
      → e.frames ≡ d.frames
      → assembly J C e false ≡ begun_frame bytes
  begun e t b f =
      λ i. record { playout_ts = t i; frame_buffer = b i; dropping = false; frames = f i }

  -- In fast-skip mode, where the jitter buffer misses a packet of the current frame, deals out some
  -- more of the frame and is empty then, and for the next call, with a buffer refilled, deals out the
  -- rest of the frame up to its marker: the two calls, with more rounds than packets, return, and
  -- the second hands on all but the missing packet as if it were the whole frame.
  process_packets_forgets :
      (body rest : List Piece) (last : Piece) {s s₁ s₂ : J.State} {p p₂ : C.Parsers}
      (clock' : ℕ → ℤ)
      → IsBody d.playout_ts body
      → IsBody d.playout_ts rest
      → IsEnd d.playout_ts last.packet
      → Feeds J C d.codec d.jitter_buffer d.parsers (skipped ∷ heard body) s p
      → J.underrun s ≡ true
      → length (skipped ∷ heard body) < fuel
      → Feeds J C d.codec s₁ p (heard (rest ++ last ∷ [])) s₂ p₂
      → J.underrun s₂ ≡ true
      → length (heard (rest ++ last ∷ [])) < fuel
      → (e e' : Depacketizer J C) × (process_packets J C fuel clock d ≡ returned e)
        × (process_packets J C fuel clock' (record e { jitter_buffer = s₁ }) ≡ returned e')
        × (e'.frames
            ≡ d.frames
              ++ record {
                bytes = all_bytes body ++ all_bytes (rest ++ last ∷ []);
                pts = d.playout_ts;
              }
                ∷ [])
  process_packets_forgets body rest last {s₁} {p₂} clock' b br en feeds empty enough feeds' empty'
        enough' =
      let (e, runs, r) = Drained-after_skip body feeds empty enough in
      let first = foldl-skipped body ∙ foldl-body skip body b in
      let d' = record e { jitter_buffer = s₁ } in
      let (e', runs', r') =
        process_packets-Drained J C clock' d' {p = p₂} (rw (r.codec, r.parsed) feeds')
          (MaySkip-heard J C d'.fast_skip (rest ++ last ∷ [])) empty' fuel enough' in
      (
        e,
        e',
        runs,
        runs',
        r'.frames
            ∙ ap (λ (x : Assembly). (foldl assemble x (heard (rest ++ last ∷ []))).frames)
                (begun e (r.playout_ts ∙ ap (λ (x : Assembly). x.playout_ts) first)
                  (r.buffer ∙ ap (λ (x : Assembly). x.frame_buffer) first)
                  (r.frames ∙ ap (λ (x : Assembly). x.frames) first))
            ∙ ap (λ (x : Assembly). x.frames)
                (foldl-rest (begun_frame (all_bytes body)) rest last br en),
      )
