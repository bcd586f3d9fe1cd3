-- ===== src/Gopipe/FakeSource.antt =====
-- gopipe/fake.go: `FakeSource`, which produces frames at a constant rate. What the `select` of `StartLive`
-- receives, and the calls of `SetTargetRate` and `Close`, come as a list of events in any order.
pub mod Frames
pub mod Runs
mod Tests
use mrtp.Prelude.{
  ℕ, zero, suc, ◌+◌, ◌*◌, ◌/◌, List, [], ◌∷◌, ◌++◌, Bool, true, false, Option, none, some, leb,
  if◌then◌else◌, get_elem?,
}
use mrtp.Prelude.Int.{ℤ, pos, negsuc, ◌+ℤ◌, ltb_ℤ, leb_ℤ, to_int64}
use mrtp.Gopipe.Attributes.{
  Attributes, no_attributes, set_attribute, pts, frame_duration, int64, duration, Result, ok, error,
  panic, cancelled,
}
use mrtp.Gopipe.Pipeline.{Info, Sink}

-- `FakeSink.Write`.
unfoldable pub write_fake : {W : Type 0} → Sink W
write_fake b a w = (w, ok tt)

-- `StartLive` is in its loop, has returned, or has panicked.
pub data Live : Type 0 where
  live : Live
  returned : Result (Unit {0}) → Live
  panicked : Live

-- `count` and `next_pts` are the variables `FrameCount` and `pts` of `StartLive`. `waiting` has the
-- rates that goroutines of `SetTargetRate` offer on `bitrateUpdateCh`, `done` says that the channel is
-- closed.
pub record FakeSource : Type 0 where
  pub min_target_rate_bps : ℤ
  pub max_target_rate_bps : ℤ
  pub target_bitrate_bps : ℤ
  pub fps : ℕ
  pub run_time : ℤ
  pub done : Bool
  pub waiting : List ℤ
  pub count : ℕ
  pub next_pts : ℤ
  pub state : Live

abbrev pub new_fake_source : ℤ → ℤ → ℤ → ℤ → FakeSource
new_fake_source run_time min_target_rate_bps max_target_rate_bps init_target_bitrate_bps = record {
  min_target_rate_bps = min_target_rate_bps;
  max_target_rate_bps = max_target_rate_bps;
  target_bitrate_bps = init_target_bitrate_bps;
  fps = 30;
  run_time = run_time;
  done = false;
  waiting = [];
  count = 0;
  next_pts = pos 0;
  state = live;
}

-- `GetInfo`.
abbrev pub fake_info : Info
fake_info = record { width = 1920; height = 1080; timebase_num = pos 30; timebase_den = pos 1 }

-- `time.Duration(float64(time.Second) / fps)` and its microseconds.
abbrev pub ms_to_next_frame : ℕ
ms_to_next_frame = 33_333_333

abbrev pub pts_step : ℕ
pts_step = ms_to_next_frame / 1000

-- Go's division of an `int`, which rounds to 0.
abbrev pub div_ℤ : ℤ → ℕ → ℤ
div_ℤ (pos n) d = pos (n / d)
div_ℤ (negsuc n) d = (let q = suc n / d in elim q [ zero ↦ pos 0 | suc k ↦ negsuc k ])

abbrev pub zeros : ℕ → List ℕ
zeros zero = []
zeros (suc n) = 0 ∷ zeros n

abbrev pub frame_attributes : ℤ → Attributes
frame_attributes next_pts =
    set_attribute (set_attribute no_attributes pts (int64 next_pts)) frame_duration
      (duration (pos ms_to_next_frame))

abbrev pub max_ℤ : ℤ → ℤ → ℤ
max_ℤ a b = if ltb_ℤ a b then b else a

abbrev pub min_ℤ : ℤ → ℤ → ℤ
min_ℤ a b = if ltb_ℤ b a then b else a

unfoldable pub update_rate : FakeSource → ℤ → FakeSource
update_rate s next_rate = record s {
  target_bitrate_bps = min_ℤ (max_ℤ next_rate s.min_target_rate_bps) s.max_target_rate_bps;
}

-- The frame of a tick is made and counted; `make` panics for a negative size.
abbrev pub after_frame : FakeSource → FakeSource
after_frame s = record s { count = suc s.count; next_pts = s.next_pts +ℤ pos pts_step }

-- `StartLive` goes on if the next element took the frame.
abbrev pub after_write : FakeSource → Result (Unit {0}) → FakeSource
after_write s (ok x) = after_frame s
after_write s (error e) = record (after_frame s) { state = returned (error e) }
after_write s panic = record (after_frame s) { state = panicked }

unfoldable pub write_frame : {W : Type 0} → Sink W → FakeSource → W → FakeSource × W
write_frame write s w = elim (div_ℤ s.target_bitrate_bps (8 * s.fps)) [
  | pos size ↦
      let (w', r) = write (zeros size) (frame_attributes s.next_pts) w in (after_write s r, w')
  | negsuc k ↦ (record s { count = suc s.count; state = panicked }, w)
]

unfoldable pub on_tick : {W : Type 0} → Sink W → FakeSource → W → FakeSource × W
on_tick write s w =
    if leb_ℤ (div_ℤ s.run_time ms_to_next_frame) (pos s.count)
    then (record s { state = returned (ok tt) }, w)
    else write_frame write s w

-- The list without the entry at an index.
abbrev pub remove_at : List ℤ → ℕ → List ℤ
remove_at [] i = []
remove_at (x ∷ xs) zero = xs
remove_at (x ∷ xs) (suc i) = x ∷ remove_at xs i

-- The offer of the goroutine at index `i` is received, if there is one.
unfoldable pub on_rate : FakeSource → ℕ → FakeSource
on_rate s i = elim (get_elem? s.waiting i) [
  | none ↦ s
  | some r ↦ update_rate (record s { waiting = remove_at s.waiting i }) r
]

-- `scale r` is `uint64(0.9 * float64(r))`.
unfoldable pub set_fake_rate : (ℕ → ℕ) → FakeSource → ℕ → FakeSource
set_fake_rate scale s r = record s { waiting = s.waiting ++ to_int64 (scale r) ∷ [] }

-- `Close`, up to the wait for the goroutines. An offer may still be received before its goroutine ends.
unfoldable pub close_fake : FakeSource → FakeSource
close_fake s = if s.done then record s { state = panicked } else record s { done = true }

-- What happens next: the ticker fires, an offered rate is received, the context or `done` is seen, or a
-- caller calls `SetTargetRate` or `Close`.
pub data Event : Type 0 where
  fires : Event
  receives : ℕ → Event
  sees_context : Event
  sees_done : Event
  sets : ℕ → Event
  closes : Event

module _ {W : Type 0} (scale : ℕ → ℕ) (write : Sink W) where
  -- A turn of the loop of `StartLive`.
  unfoldable pub select_event : Event → FakeSource → W → FakeSource × W
  select_event fires s w = on_tick write s w
  select_event (receives i) s w = (on_rate s i, w)
  select_event sees_context s w = (record s { state = returned (error cancelled) }, w)
  select_event sees_done s w = (if s.done then record s { state = returned (ok tt) } else s, w)
  select_event (sets r) s w = (set_fake_rate scale s r, w)
  select_event closes s w = (close_fake s, w)

  -- `StartLive`, until it returns or no more events come.
  unfoldable pub start_live : List Event → FakeSource → W → FakeSource × W
  start_live [] s w = (s, w)
  start_live (e ∷ es) s w =
      let (s', w') = select_event e s w in
      let rest = start_live es s' w' in
      elim s.state [ live ↦ rest | returned r ↦ (s, w) | panicked ↦ (s, w) ]
