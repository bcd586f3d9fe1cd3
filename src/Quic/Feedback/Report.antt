-- ===== src/Quic/Feedback/Report.antt =====
-- The loop of `updateBWE` in internal/quictransport/transport.go, and the entries it should report.
use mrtp.Prelude.{
  ℕ, zero, suc, ◌+◌, ◌≤◌, ◌<◌, ◌≡◌, refl, ap, ◌∙◌, ◌⊎◌, List, [], ◌∷◌, ◌++◌, map, ◌&&◌, leb,
  if◌then◌else◌, drop, All, arith,
}
use mrtp.Quic.Feedback.{
  PacketFeedback, BweCall, on_ack, on_loss, update_rtt, update_ecn_counts, update_target_rate,
  report_of, report_loop,
}
use mrtp.Quic.Feedback.Sorted.{Ascending, Ascending-mono}

-- The entries between two numbers, ends included.
unfoldable pub window : ℕ → ℕ → List PacketFeedback → List PacketFeedback
window lowest highest [] = []
window lowest highest (f ∷ fs) =
    if leb lowest f.seq_nr && leb f.seq_nr highest
    then f ∷ window lowest highest fs
    else window lowest highest fs

window_above :
    (highest lowest lo : ℕ) (fs : List PacketFeedback)
    → Ascending lo fs
    → highest < lo
    → window lowest highest fs ≡ []
unfolding window
window_above highest lowest lo [] a h = refl
window_above highest lowest lo (f ∷ fs) a h =
    ground (arith, window_above highest lowest (suc f.seq_nr) fs a.2)

-- The loop reports each entry of the window, in order, and no other.
pub report_loop-window :
    (highest lowest i lo : ℕ) (fs : List PacketFeedback)
    → Ascending lo fs
    → (report_loop highest lowest i fs).1 ≡ map report_of (window lowest highest fs)
unfolding report_loop window
report_loop-window highest lowest i lo [] a = refl
report_loop-window highest lowest i lo (f ∷ fs) a = ground (
  arith,
  report_loop-window highest lowest (i + 1) (suc f.seq_nr) fs,
  window_above highest lowest (suc f.seq_nr) fs,
)

-- The sequence numbers that the calls report.
unfoldable pub reported : List BweCall → List ℕ
reported [] = []
reported (on_ack seq size departure arrival ecn ∷ cs) = seq ∷ reported cs
reported (on_loss seq size departure ∷ cs) = seq ∷ reported cs
reported (update_rtt rtt ∷ cs) = reported cs
reported (update_ecn_counts ect0 ect1 ce ∷ cs) = reported cs
reported (update_target_rate now ∷ cs) = reported cs

pub reported-append : (xs ys : List BweCall) → reported (xs ++ ys) ≡ reported xs ++ reported ys
unfolding reported
reported-append [] ys = refl
reported-append (on_ack seq size departure arrival ecn ∷ xs) ys =
    ap (◌∷◌ seq) (reported-append xs ys)
reported-append (on_loss seq size departure ∷ xs) ys = ap (◌∷◌ seq) (reported-append xs ys)
reported-append (update_rtt rtt ∷ xs) ys = reported-append xs ys
reported-append (update_ecn_counts ect0 ect1 ce ∷ xs) ys = reported-append xs ys
reported-append (update_target_rate now ∷ xs) ys = reported-append xs ys

pub reported-report_of :
    (f : PacketFeedback) (cs : List BweCall) → reported (report_of f ∷ cs) ≡ f.seq_nr ∷ reported cs
unfolding reported
reported-report_of f cs = ground arith

-- Strictly ascending, from `lo` on and below `hi`.
abbrev pub Climbs : ℕ → List ℕ → ℕ → Type 0
Climbs lo [] hi = lo ≤ hi
Climbs lo (x ∷ xs) hi = (lo ≤ x) × Climbs (suc x) xs hi

pub Climbs-append :
    (a b c : ℕ) (xs ys : List ℕ) → Climbs a xs b → Climbs b ys c → Climbs a (xs ++ ys) c
Climbs-append a b c [] [] h k = omega arith
Climbs-append a b c [] (y ∷ ys) h k = (omega arith, k.1)
Climbs-append a b c (x ∷ xs) ys h k = (h.0, Climbs-append (suc x) b c xs ys h.1 k)

abbrev pub seq_nrs : List PacketFeedback → List ℕ
seq_nrs = map (λ f. f.seq_nr)

pub reported-map : (fs : List PacketFeedback) → reported (map report_of fs) ≡ seq_nrs fs
unfolding reported
reported-map [] = refl
reported-map (f ∷ fs) =
    reported-report_of f (map report_of fs) ∙ ap (◌∷◌ f.seq_nr) (reported-map fs)

-- The window's numbers climb from any number at its lower end or below the entries.
pub window-Climbs :
    (highest lowest lo from : ℕ) (fs : List PacketFeedback)
    → Ascending lo fs
    → (from ≤ lo) ⊎ (from ≡ lowest)
    → lowest ≤ from
    → from ≤ suc highest
    → Climbs from (seq_nrs (window lowest highest fs)) (suc highest)
unfolding window
window-Climbs highest lowest lo from [] a at l u = u
window-Climbs highest lowest lo from (f ∷ fs) a at l u = ground (
  arith,
  window-Climbs highest lowest (suc f.seq_nr) from fs a.2,
  window-Climbs highest lowest (suc f.seq_nr) (suc f.seq_nr) fs a.2,
)

-- Where no entry is above `highest` the index stays 0, and `drop` removes nothing.
pub report_loop-idle :
    (highest lowest i lo : ℕ) (fs : List PacketFeedback)
    → All (λ f. f.seq_nr ≤ highest) fs
    → (report_loop highest lowest i fs).0 ≡ 0
unfolding report_loop
report_loop-idle highest lowest i lo [] h = refl
report_loop-idle highest lowest i lo (f ∷ fs) h =
    ground (arith, report_loop-idle highest lowest (i + 1) lo fs h.1)

pub drop-Ascending :
    (n lo : ℕ) (fs : List PacketFeedback) → Ascending lo fs → Ascending lo (drop n fs)
drop-Ascending zero lo fs a = a
drop-Ascending (suc n) lo [] a = tt
drop-Ascending (suc n) lo (f ∷ fs) a =
    Ascending-mono {lo = suc f.seq_nr} (drop n fs) (omega arith)
      (drop-Ascending n (suc f.seq_nr) fs a.2)
