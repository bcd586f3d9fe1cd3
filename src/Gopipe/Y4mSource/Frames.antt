-- ===== src/Gopipe/Y4mSource/Frames.antt =====
-- What `StartLive` of gopipe/y4m_source.go writes of a whole stream.
use mrtp.Prelude.{
  ℕ, zero, suc, ◌*◌, ◌/◌, ◌<◌, ◌≡◌, refl, subst, sym, ◌∙◌, List, [], ◌∷◌, ◌++◌, append_assoc,
  append-nil, Bool, true, false, some, none, length, arith,
}
use mathlib.Core.Path.{fun_ext}
use native.Mathlib.Numerals.{unary_clauses}
use mrtp.Prelude.Int.{ℤ, pos, ◌+ℤ◌, ltb_ℤ}
use mrtp.Gopipe.Attributes.{
  Ratio, AttributeKey, Attributes, no_attributes, set_attribute, chroma_subsampling, is_key_frame,
  sample_duration, width, height, pts, frame_duration, ratio, int64, duration, ok,
}
use mrtp.Gopipe.Pipeline.{Sink}
use mrtp.Gopipe.Spacer.{Sent}
use mrtp.Gopipe.FakeSource.{div_ℤ}
use mrtp.Gopipe.FakeSource.Frames.{traced}
use mrtp.Gopipe.Y4mSource.{
  StreamHeader, FrameRead, got_frame, end_of_file, convert_subsample_ratio, returns, get_frame,
  live_attributes, y4m_tick, y4m_ticks, start_y4m,
}

-- A reader that deals out the frames of a stream and is then at its end.
pub record ReadsStream {R : Type 0} (read_next : R → R × FrameRead) (left : R → List (List ℕ))
    : Type 0 where
  pub read_end : (r : R) → left r ≡ [] → (read_next r).1 ≡ end_of_file
  pub read_frame :
      (r : R) (b : List ℕ) (bs : List (List ℕ))
      → left r ≡ b ∷ bs
      → ((read_next r).1 ≡ got_frame b) × (left (read_next r).0 ≡ bs)

abbrev pub ticks_of : ℕ → List Bool
ticks_of zero = []
ticks_of (suc n) = false ∷ ticks_of n

module _ (csr : Ratio) (d : ℕ) where
  -- What goes with the frame with number `k`.
  abbrev pub stamped : ℕ → Attributes
  stamped k chroma_subsampling = some (ratio csr)
  stamped k pts = some (int64 (pos (k * (d / 1000))))
  stamped k frame_duration = some (duration (pos d))
  stamped k is_key_frame = none
  stamped k sample_duration = none
  stamped k width = none
  stamped k height = none

  -- The frames from the one with number `k`.
  abbrev pub numbered : ℕ → List (List ℕ) → List Sent
  numbered k [] = []
  numbered k (b ∷ bs) = (b, stamped k) ∷ numbered (suc k) bs

  stamped_at :
      (k : ℕ) (key : AttributeKey)
      → live_attributes
          (set_attribute no_attributes chroma_subsampling (ratio csr))
          (pos (k * (d / 1000)))
          (pos d)
          key
        ≡ stamped k key
  stamped_at k chroma_subsampling = refl
  stamped_at k pts = refl
  stamped_at k frame_duration = refl
  stamped_at k is_key_frame = refl
  stamped_at k sample_duration = refl
  stamped_at k width = refl
  stamped_at k height = refl

next_pts : (d k : ℕ) → pos (k * (d / 1000)) +ℤ div_ℤ (pos d) 1000 ≡ pos (suc k * (d / 1000))
unfolding ◌+ℤ◌
next_pts d k = simp unary_clauses (ground (arith))

module _ {R : Type 0} {W : Type 0} (read_next : R → R × FrameRead) (frame_duration_of : ℤ → ℤ → ℤ)
    (left : R → List (List ℕ)) (write : Sink W) (h : StreamHeader) (csr : Ratio) (d : ℕ)
    (reads : ReadsStream read_next left)
    (accepts : (b : List ℕ) (a : Attributes) (w : W) → (write b a w).1 ≡ ok tt)
    (supported : convert_subsample_ratio h.chroma ≡ ok csr) where
  y4m_ticks-numbered :
      (bs : List (List ℕ)) (n k : ℕ) (r : R) (w : W) (log : List Sent)
      → left r ≡ bs
      → length bs < n
      → (let x =
            y4m_ticks read_next frame_duration_of
              (traced write)
              h
              (pos d)
              (ticks_of n)
              (pos (k * (d / 1000)))
              r
              (w, log) in
          (x.1 ≡ returns (ok tt)) × (x.0.1.1 ≡ log ++ numbered csr d k bs))
  unfolding y4m_ticks y4m_tick get_frame
  y4m_ticks-numbered bs zero k r w log l enough = absurd (omega (arith, enough))
  y4m_ticks-numbered [] (suc n) k r w log l enough =
      simp (y4m_ticks, y4m_tick, get_frame, reads.read_end r l) (refl, sym (append-nil log))
  y4m_ticks-numbered (b ∷ bs) (suc n) k r w log l enough =
      let (e, l') = reads.read_frame r b bs l in
      let a = stamped csr d k in
      let same = fun_ext (stamped_at csr d k) in
      let (p, q) =
        y4m_ticks-numbered bs n (suc k) (read_next r).0 (write b a w).0 (log ++ (b, a) ∷ []) l'
          (omega (arith, enough)) in
      simp (y4m_ticks, y4m_tick, get_frame, e, supported, same, accepts, next_pts d k)
        (p, q ∙ append_assoc log ((b, a) ∷ []) (numbered csr d (suc k) bs))

-- For a reader that deals out the frames `bs` and is then at its end, a supported subsampling, a positive
-- frame duration of `d` nanoseconds, a sink that takes every frame, and a tick more than there are frames
-- with the context never done: `StartLive` writes all frames, each once and in order, the one with number
-- `k` with the subsampling, the frame duration and the time stamp of `k` frame durations in whole
-- microseconds, and with no other attribute, and returns no error.
pub start_y4m-numbered :
    {R : Type 0} {W : Type 0} (read_next : R → R × FrameRead) (frame_duration_of : ℤ → ℤ → ℤ)
    (left : R → List (List ℕ)) (write : Sink W) (h : StreamHeader) (csr : Ratio) (d : ℕ)
    (bs : List (List ℕ)) (r : R) (w : W)
    → ReadsStream read_next left
    → ((b : List ℕ) (a : Attributes) (w : W) → (write b a w).1 ≡ ok tt)
    → convert_subsample_ratio h.chroma ≡ ok csr
    → frame_duration_of h.numerator h.denominator ≡ pos d
    → 0 < d
    → left r ≡ bs
    → (let x =
          start_y4m read_next frame_duration_of
            (traced write)
            h
            (ticks_of (suc (length bs)))
            r
            (w, []) in
        (x.1 ≡ returns (ok tt)) × (x.0.1.1 ≡ numbered csr d 0 bs))
unfolding start_y4m
start_y4m-numbered read_next frame_duration_of left write h csr d bs r w reads accepts supported e
      positive l =
    let now : ltb_ℤ (pos 0) (pos d) ≡ true = ground (arith, positive) in
    let ticks = ticks_of (suc (length bs)) in
    let runs = y4m_ticks read_next frame_duration_of (traced write) h (pos d) ticks in
    let all =
      y4m_ticks-numbered read_next frame_duration_of left write h csr d reads accepts supported bs
        (suc (length bs)) 0 r w [] l (omega arith) in
    let from_zero : 0 * (d / 1000) ≡ 0 = omega arith in
    simp (start_y4m, e, now)
      (subst
        (λ n.
          ((runs (pos n) r (w, [])).1 ≡ returns (ok tt))
          × ((runs (pos n) r (w, [])).0.1.1 ≡ numbered csr d 0 bs))
        from_zero all)
