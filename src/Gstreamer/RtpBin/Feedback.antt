-- ===== src/Gstreamer/RtpBin/Feedback.antt =====
-- The feedback of a receiver with SCReAM in the graph of gstreamer/rtpbin.go.
use mrtp.Prelude.{ℕ, ◌≡◌, inl, inr, List, Bool, Option, some, Option-cases, arith}
use mrtp.Gstreamer.RtpBin.{
  funnel, created, Element, GstCall, add_element, sync_state, RtpBin, Op, ◌>>◌, set_at, call,
  keep_funnel, funnel_to_send, funnel_to_receive,
}
use mrtp.Gstreamer.RtpBin.Growth.{IsGrowing, then-cases}
use mrtp.Gstreamer.RtpBin.Runs.{and_then}
use mrtp.Gstreamer.RtpBin.Paths.{Ensures, second, with_new-Ensures}

module _ (works : List GstCall → GstCall → Bool) where
  pub set_at-same : {A : Type 0} (m : ℕ → Option A) (id : ℕ) (a : A) → set_at m id a id ≡ some a
  set_at-same m id a = ground arith

  -- The funnel of the session afterwards is the one that goes on.
  abbrev pub HasFunnel : ℕ → Element → RtpBin → Type 0
  HasFunnel id f s = s.rtcp_funnels id ≡ some f

  funnel_kept :
      (id : ℕ) (f : Element) (g : Op) (Q : RtpBin → Type 0)
      → IsGrowing g
      → Ensures g Q
      → Ensures (keep_funnel id f >> g) (λ s. HasFunnel id f s × Q s)
  funnel_kept id f g Q grows h = record {
    holds = λ s done.
        let kept = (keep_funnel id f s).0 in
        elim (then-cases (keep_funnel id f) g s) [
          | inl (e, same) ↦ rw same (
            (grows.grows kept).funnels id f (set_at-same s.rtcp_funnels id f),
            h.holds kept (rw⁻¹ same done),
          )
          | inr (same, e) ↦ absurd (e done)
        ];
  }

  -- The state after has a funnel for the session, of which `Q` holds.
  abbrev pub SomeFunnel : ℕ → (Element → RtpBin → Type 0) → RtpBin → Type 0
  SomeFunnel id Q s = (f : Element) × (HasFunnel id f s × Q f s)

  pub funnel_to_receive-Ensures :
      (id : ℕ) (next : Element → Op) (Q : Element → RtpBin → Type 0)
      → ((f : Element) → IsGrowing (next f))
      → ((f : Element) → Ensures (next f) (Q f))
      → Ensures (funnel_to_receive works id next) (SomeFunnel id Q)
  unfolding funnel_to_receive
  funnel_to_receive-Ensures id next Q grows h = record {
    holds = λ s done. elim (Option-cases (s.rtcp_funnels id)) [
      | inl e ↦
          let new =
            with_new-Ensures works funnel
              (λ f. keep_funnel id f >> call works (add_element (some f)) >> next f)
              (SomeFunnel id Q)
              (λ n. record {
                holds = λ t ended.
                    let f = created funnel n in
                    let rest = call works (add_element (some f)) >> next f in
                    (
                      f,
                      (funnel_kept id f rest (Q f) (and_then works _ _ _ (grows f))
                            (second _ _ _ (h f))).holds
                          t ended,
                    );
              }) in
          rw (funnel_to_receive, e) (new.holds s (rw (funnel_to_receive, e) at done))
      | inr (f, e) ↦
          let same : funnel_to_receive works id next s ≡ next f s = rw (funnel_to_receive, e) in
          (f, rw same (((grows f).grows s).funnels id f e, (h f).holds s (rw⁻¹ same done)))
    ];
  }

  pub funnel_to_send-Ensures :
      (id : ℕ) (next : Element → Op) (Q : Element → RtpBin → Type 0)
      → ((f : Element) → IsGrowing (next f))
      → ((f : Element) → Ensures (next f) (Q f))
      → Ensures (funnel_to_send works id next) (SomeFunnel id Q)
  unfolding funnel_to_send
  funnel_to_send-Ensures id next Q grows h = record {
    holds = λ s done. elim (Option-cases (s.rtcp_funnels id)) [
      | inl e ↦
          let new =
            with_new-Ensures works funnel
              (λ f.
                keep_funnel id f
                >> call works (add_element (some f))
                >> call works (sync_state (some f))
                >> next f)
              (SomeFunnel id Q)
              (λ n. record {
                holds = λ t ended.
                    let f = created funnel n in
                    let rest =
                      call works (add_element (some f))
                      >> call works (sync_state (some f))
                      >> next f in
                    (
                      f,
                      (funnel_kept id f rest (Q f)
                            (and_then works _ _ _ (and_then works _ _ _ (grows f)))
                            (second _ _ _ (second _ _ _ (h f)))).holds
                          t ended,
                    );
              }) in
          rw (funnel_to_send, e) (new.holds s (rw (funnel_to_send, e) at done))
      | inr (f, e) ↦
          let same : funnel_to_send works id next s ≡ next f s = rw (funnel_to_send, e) in
          (f, rw same (((grows f).grows s).funnels id f e, (h f).holds s (rw⁻¹ same done)))
    ];
  }
