-- ===== src/Gopipe/FakeSource/Frames.antt =====
-- The frames that `StartLive` of gopipe/fake.go writes, and what its operations keep of them.
use mrtp.Prelude.{
  ℕ, zero, suc, ◌+◌, ◌*◌, ◌/◌, ◌≤◌, ◌<◌, ◌≡◌, ◌≢◌, ◌⊎◌, inl, inr, refl, subst, ap, List, [], ◌∷◌,
  ◌++◌, Bool, true, false, none, some, get_elem?, length, length-append, arith, min, max,
}
use native.Mathlib.Numerals.{unary_clauses}
use mrtp.Prelude.Int.{ℤ, pos, negsuc, ◌+ℤ◌, leb_ℤ}
use mrtp.Gopipe.Attributes.{pts, frame_duration, int64, duration, Error, Result, ok, error, panic}
use mrtp.Gopipe.Pipeline.{Sink}
use mrtp.Gopipe.Spacer.{Sent}
use mrtp.Gopipe.FakeSource.{
  Live, live, returned, panicked, FakeSource, ms_to_next_frame, pts_step, div_ℤ, zeros,
  frame_attributes, max_ℤ, min_ℤ, update_rate, after_frame, after_write, remove_at, on_rate,
}

-- A sink with a list of what was written to it.
abbrev pub traced : {W : Type 0} → Sink W → Sink (W × List Sent)
traced write b a (w, log) = (let (w', r) = write b a w in ((w', log ++ (b, a) ∷ []), r))

pub Live-cases :
    (l : Live) → (l ≡ live) ⊎ (((r : Result (Unit {0})) × (l ≡ returned r)) ⊎ (l ≡ panicked))
Live-cases live = inl refl
Live-cases (returned r) = inr (inl (r, refl))
Live-cases panicked = inr (inr refl)

module _ (lo hi : ℕ) where
  -- The frame with number `k` at a rate between `lo` and `hi` bits per second.
  abbrev pub IsFrame : ℕ → Sent → Type 0
  IsFrame k f =
      (f.1 pts ≡ some (int64 (pos (k * pts_step))))
      × ((f.1 frame_duration ≡ some (duration (pos ms_to_next_frame)))
          × ((lo / 240 ≤ length f.0) × (length f.0 ≤ hi / 240)))

  abbrev pub AreFrames : ℕ → List Sent → Type 0
  AreFrames k [] = Unit {0}
  AreFrames k (f ∷ fs) = IsFrame k f × AreFrames (suc k) fs

  AreFrames-append :
      (k : ℕ) (fs : List Sent) (f : Sent)
      → AreFrames k fs
      → IsFrame (k + length fs) f
      → AreFrames k (fs ++ f ∷ [])
  AreFrames-append k [] f hs h = (simp unary_clauses at h, tt)
  AreFrames-append k (g ∷ fs) f (h', hs) h =
      (h', AreFrames-append (suc k) fs f hs (subst (λ n. IsFrame n f) (omega arith) h))

  length-zeros : (n : ℕ) → length (zeros n) ≡ n
  length-zeros zero = refl
  length-zeros (suc n) = ap suc (length-zeros n)

  module _ (run_time : ℕ) where
    pub record Inv (s : FakeSource) (log : List Sent) : Type 0 where
      pub target : ℕ
      pub same_target : s.target_bitrate_bps ≡ pos target
      pub above : lo ≤ target
      pub below : target ≤ hi
      pub same_min : s.min_target_rate_bps ≡ pos lo
      pub same_max : s.max_target_rate_bps ≡ pos hi
      pub same_fps : s.fps ≡ 30
      pub same_time : s.run_time ≡ pos run_time
      pub same_count : length log ≡ s.count
      pub same_pts : s.next_pts ≡ pos (s.count * pts_step)
      pub in_time : s.count ≤ run_time / ms_to_next_frame
      pub ends :
          (s.count ≡ run_time / ms_to_next_frame) ⊎ ((s.state ≢ returned (ok tt)) ⊎ (s.done ≡ true))
      pub frames : AreFrames 0 log

    with_target :
        (s : FakeSource) (log : List Sent) (r : ℤ) (t : ℕ)
        → r ≡ pos t
        → lo ≤ t
        → t ≤ hi
        → Inv s log
        → Inv (record s { target_bitrate_bps = r }) log
    with_target s log r t e lo_t t_hi h = record {
      target = t;
      same_target = e;
      above = lo_t;
      below = t_hi;
      same_min = h.same_min;
      same_max = h.same_max;
      same_fps = h.same_fps;
      same_time = h.same_time;
      same_count = h.same_count;
      same_pts = h.same_pts;
      in_time = h.in_time;
      ends = h.ends;
      frames = h.frames;
    }

    -- what an update does not touch
    pub with_state :
        (s : FakeSource) (log : List Sent) (done : Bool) (waiting : List ℤ) (state : Live)
        → (s.count ≡ run_time / ms_to_next_frame) ⊎ ((state ≢ returned (ok tt)) ⊎ (done ≡ true))
        → Inv s log
        → Inv (record s { done = done; waiting = waiting; state = state }) log
    with_state s log done waiting state ends h = record {
      target = h.target;
      same_target = h.same_target;
      above = h.above;
      below = h.below;
      same_min = h.same_min;
      same_max = h.same_max;
      same_fps = h.same_fps;
      same_time = h.same_time;
      same_count = h.same_count;
      same_pts = h.same_pts;
      in_time = h.in_time;
      ends = ends;
      frames = h.frames;
    }

    clamp_pos : (n : ℕ) → min_ℤ (max_ℤ (pos n) (pos lo)) (pos hi) ≡ pos (min (max n lo) hi)
    clamp_pos n = ground (arith)

    clamp_negsuc : (n : ℕ) → min_ℤ (max_ℤ (negsuc n) (pos lo)) (pos hi) ≡ pos (min lo hi)
    clamp_negsuc n = ground (arith)

    update_rate-Inv :
        (s : FakeSource) (log : List Sent) (r : ℤ) → lo ≤ hi → Inv s log → Inv (update_rate s r) log
    unfolding update_rate
    update_rate-Inv s log (pos n) lo_hi h =
        with_target s log (min_ℤ (max_ℤ (pos n) s.min_target_rate_bps) s.max_target_rate_bps)
          (min (max n lo) hi) (rw (h.same_min, h.same_max) (clamp_pos n)) (omega arith)
          (omega arith) h
    update_rate-Inv s log (negsuc n) lo_hi h =
        with_target s log (min_ℤ (max_ℤ (negsuc n) s.min_target_rate_bps) s.max_target_rate_bps)
          (min lo hi) (rw (h.same_min, h.same_max) (clamp_negsuc n)) (omega arith) (omega arith) h

    pub on_rate-Inv :
        (s : FakeSource) (log : List Sent) (i : ℕ) → lo ≤ hi → Inv s log → Inv (on_rate s i) log
    unfolding on_rate
    on_rate-Inv s log i lo_hi h =
        elim (get_elem? s.waiting i)
          as (λ o.
            Inv
              (elim o [
                | none ↦ s
                | some r ↦ update_rate (record s { waiting = remove_at s.waiting i }) r
              ])
              log) [
                | none ↦ h
                | some r ↦
                    update_rate-Inv (record s { waiting = remove_at s.waiting i }) log r lo_hi
                      (with_state s log s.done (remove_at s.waiting i) s.state h.ends h)
              ]

    -- a frame of the source's rate, when it is time for one
    pub is_next :
        (s : FakeSource) (log : List Sent)
        → Inv s log
        → (size : ℕ) × ((div_ℤ s.target_bitrate_bps (8 * s.fps) ≡ pos size)
            × IsFrame s.count (zeros size, frame_attributes s.next_pts))
    is_next s log h = (
      h.target / 240,
      (
        rw (h.same_target, h.same_fps) refl,
        (
          rw h.same_pts refl,
          (
            refl,
            (
              rw (length-zeros (h.target / 240)) (omega arith),
              rw (length-zeros (h.target / 240)) (omega arith),
            ),
          ),
        ),
      ),
    )

    step_pts : (n : ℕ) → pos (n * pts_step) +ℤ pos pts_step ≡ pos (suc n * pts_step)
    unfolding ◌+ℤ◌
    step_pts n = ground (arith)

    after_frame-Inv :
        (s : FakeSource) (log : List Sent) (f : Sent) (state : Live)
        → s.count < run_time / ms_to_next_frame
        → IsFrame s.count f
        → state ≢ returned (ok tt)
        → Inv s log
        → Inv (record (after_frame s) { state = state }) (log ++ f ∷ [])
    after_frame-Inv s log f state early next going h = record {
      target = h.target;
      same_target = h.same_target;
      above = h.above;
      below = h.below;
      same_min = h.same_min;
      same_max = h.same_max;
      same_fps = h.same_fps;
      same_time = h.same_time;
      same_count = omega (arith, length-append log (f ∷ []), h.same_count);
      same_pts = rw h.same_pts (step_pts s.count);
      in_time = omega (arith, early);
      ends = inr (inl going);
      frames =
          AreFrames-append 0 log f h.frames
            (subst (λ n. IsFrame n f) (omega (arith, h.same_count)) next);
    }

    pub live-going : live ≢ returned (ok tt)
    live-going e = cc

    pub error-going : (e : Error) → returned (error e) ≢ returned (ok tt)
    error-going e h = cc

    pub panicked-going : panicked ≢ returned (ok tt)
    panicked-going e = cc

    pub after_write-Inv :
        (s : FakeSource) (log : List Sent) (f : Sent) (r : Result (Unit {0}))
        → s.count < run_time / ms_to_next_frame
        → IsFrame s.count f
        → s.state ≡ live
        → Inv s log
        → Inv (after_write s r) (log ++ f ∷ [])
    after_write-Inv s log f (ok x) few next l h =
        after_frame-Inv s log f s.state few next (rw l live-going) h
    after_write-Inv s log f (error e) few next l h =
        after_frame-Inv s log f (returned (error e)) few next (error-going e) h
    after_write-Inv s log f panic few next l h =
        after_frame-Inv s log f panicked few next panicked-going h

    pub last :
        (s : FakeSource) (log : List Sent)
        → Inv s log
        → leb_ℤ (div_ℤ s.run_time ms_to_next_frame) (pos s.count) ≡ true
        → s.count ≡ run_time / ms_to_next_frame
    last s log h e =
        let e' : leb_ℤ (pos (run_time / ms_to_next_frame)) (pos s.count) ≡ true =
          (rw h.same_time at e) in
        ground (arith, e', h.in_time)

    pub early :
        (s : FakeSource) (log : List Sent)
        → Inv s log
        → leb_ℤ (div_ℤ s.run_time ms_to_next_frame) (pos s.count) ≡ false
        → s.count < run_time / ms_to_next_frame
    early s log h e =
        let e' : leb_ℤ (pos (run_time / ms_to_next_frame)) (pos s.count) ≡ false =
          (rw h.same_time at e) in
        ground (arith, e', h.in_time)
