-- ===== src/Gopipe/FakeSource/Runs.antt =====
-- `StartLive` of gopipe/fake.go over its events.
use mrtp.Prelude.{
  ℕ, ◌/◌, ◌≤◌, ◌<◌, ◌≡◌, ◌≢◌, ◌⊎◌, inl, inr, refl, List, [], ◌∷◌, ◌++◌, true, length, Bool-cases,
  arith,
}
use mrtp.Prelude.Int.{pos, leb_ℤ, to_int64}
use mrtp.Gopipe.Attributes.{ok, error, cancelled}
use mrtp.Gopipe.Pipeline.{Sink}
use mrtp.Gopipe.Spacer.{Sent}
use mrtp.Gopipe.FakeSource.{
  live, returned, panicked, FakeSource, new_fake_source, ms_to_next_frame, div_ℤ, zeros,
  frame_attributes, write_frame, on_tick, set_fake_rate, close_fake, Event, fires, receives,
  sees_context, sees_done, sets, closes, select_event, start_live,
}
use mrtp.Gopipe.FakeSource.Frames.{
  traced, AreFrames, Live-cases, Inv, is_next, after_write-Inv, with_state, last, early,
  on_rate-Inv, error-going, panicked-going, live-going,
}

module _ (lo hi run_time : ℕ) {W : Type 0} (scale : ℕ → ℕ) (write : Sink W) where
  write_frame-Inv :
      (s : FakeSource) (w : W) (log : List Sent)
      → s.count < run_time / ms_to_next_frame
      → s.state ≡ live
      → Inv lo hi run_time s log
      → (let x = write_frame (traced write) s (w, log) in Inv lo hi run_time x.0 x.1.1)
  unfolding write_frame
  write_frame-Inv s w log few l h =
      let (size, (e, next)) = is_next lo hi run_time s log h in
      simp (write_frame, e)
        (after_write-Inv lo hi run_time s log (zeros size, frame_attributes s.next_pts)
          (write (zeros size) (frame_attributes s.next_pts) w).1 few next l h)

  on_tick-Inv :
      (s : FakeSource) (w : W) (log : List Sent)
      → s.state ≡ live
      → Inv lo hi run_time s log
      → (let x = on_tick (traced write) s (w, log) in Inv lo hi run_time x.0 x.1.1)
  unfolding on_tick
  on_tick-Inv s w log l h =
      elim (Bool-cases (leb_ℤ (div_ℤ s.run_time ms_to_next_frame) (pos s.count))) [
        | inl e ↦ simp (e) (
            with_state lo hi run_time s log s.done s.waiting (returned (ok tt))
              (inl (last lo hi run_time s log h e)) h)
        | inr e ↦ simp (e) (write_frame-Inv s w log (early lo hi run_time s log h e) l h)
      ]

  select_event-Inv :
      (e : Event) (s : FakeSource) (w : W) (log : List Sent)
      → lo ≤ hi
      → s.state ≡ live
      → Inv lo hi run_time s log
      → (let x = select_event scale (traced write) e s (w, log) in Inv lo hi run_time x.0 x.1.1)
  unfolding select_event set_fake_rate close_fake
  select_event-Inv fires s w log lo_hi l h = on_tick-Inv s w log l h
  select_event-Inv (receives i) s w log lo_hi l h = on_rate-Inv lo hi run_time s log i lo_hi h
  select_event-Inv sees_context s w log lo_hi l h =
      with_state lo hi run_time s log s.done s.waiting (returned (error cancelled))
        (inr (inl (error-going lo hi run_time cancelled))) h
  select_event-Inv sees_done s w log lo_hi l h = elim (Bool-cases s.done) [
    | inl e ↦
        simp (e)
          (with_state lo hi run_time s log true s.waiting (returned (ok tt)) (inr (inr refl)) h)
    | inr e ↦ simp (e) h
  ]
  select_event-Inv (sets r) s w log lo_hi l h =
      with_state lo hi run_time s log s.done (s.waiting ++ to_int64 (scale r) ∷ []) s.state h.ends h
  select_event-Inv closes s w log lo_hi l h = elim (Bool-cases s.done) [
    | inl e ↦ simp (e) (
        with_state lo hi run_time s log true s.waiting panicked
          (inr (inl (panicked-going lo hi run_time))) h)
    | inr e ↦ simp (e) (with_state lo hi run_time s log true s.waiting s.state (inr (inr refl)) h)
  ]

  start_live-Inv :
      (es : List Event) (s : FakeSource) (w : W) (log : List Sent)
      → lo ≤ hi
      → Inv lo hi run_time s log
      → (let x = start_live scale (traced write) es s (w, log) in Inv lo hi run_time x.0 x.1.1)
  unfolding start_live
  start_live-Inv [] s w log lo_hi h = h
  start_live-Inv (e ∷ es) s w log lo_hi h =
      let (s', (w', log')) = select_event scale (traced write) e s (w, log) in
      elim (Live-cases s.state) [
        | inl l ↦
            simp (start_live, l)
              (start_live-Inv es s' w' log' lo_hi (select_event-Inv e s w log lo_hi l h))
        | inr (inl (r, l)) ↦ simp (start_live, l) h
        | inr (inr l) ↦ simp (start_live, l) h
      ]

-- From a new source whose initial rate lies between a minimum of `lo` and a maximum of `hi`, for every
-- sink and whatever the events and their order: the frames that `StartLive` has written carry the time
-- stamps 0, 1, 2, … times the microseconds of a frame, have the size of a frame at a rate between `lo` and
-- `hi`, and are at most as many as fit the run time; they are exactly as many if it has returned with no
-- error and `Close` was not called.
pub start_live-AreFrames :
    {W : Type 0} (scale : ℕ → ℕ) (write : Sink W) (lo hi init run_time : ℕ) (es : List Event)
    (w : W)
    → lo ≤ init
    → init ≤ hi
    → (let x =
          start_live scale
            (traced write)
            es
            (new_fake_source (pos run_time) (pos lo) (pos hi) (pos init))
            (w, []) in
        AreFrames lo hi 0 x.1.1
        × ((length x.1.1 ≤ run_time / ms_to_next_frame)
            × ((length x.1.1 ≡ run_time / ms_to_next_frame)
                ⊎ ((x.0.state ≢ returned (ok tt)) ⊎ (x.0.done ≡ true)))))
start_live-AreFrames scale write lo hi init run_time es w lo_init init_hi =
    let s = new_fake_source (pos run_time) (pos lo) (pos hi) (pos init) in
    let x = start_live scale (traced write) es s (w, []) in
    let h : Inv lo hi run_time s [] = record {
      target = init;
      same_target = refl;
      above = lo_init;
      below = init_hi;
      same_min = refl;
      same_max = refl;
      same_fps = refl;
      same_time = refl;
      same_count = refl;
      same_pts = refl;
      in_time = omega arith;
      ends = inr (inl (live-going lo hi run_time));
      frames = tt;
    } in
    let i =
      start_live-Inv lo hi run_time scale write es s w [] (omega (arith, lo_init, init_hi)) h in
    (i.frames, (rw i.same_count i.in_time, rw i.same_count i.ends))
