-- ===== src/Gstreamer/RtpBin/Paths.antt =====
-- Where the media and the feedback go in the graph of gstreamer/rtpbin.go.
use mrtp.Prelude.{ℕ, ◌≡◌, ◌≢◌, inl, inr, List, Bool, true, false, some, Bool-cases, length}
use mrtp.Gstreamer.RtpBin.{
  Kind, created, Element, rtpbin, screamtx, Pad, pad, send_rtp_src, send_rtp_sink, sink, src,
  sink_0, sink_1, GstCall, new_element, add_element, get_pad, link_pads, Outcome, ok, error, panic,
  RtpBin, Op, ◌>>◌, call_or, call, with_new, link_source, source_through_scream,
  add_rtp_source_stream,
}
use mrtp.Gstreamer.RtpBin.Growth.{Has, Has-last, IsGrowing, then-cases}
use mrtp.Gstreamer.RtpBin.Runs.{last_call, and_then}

-- What comes in at a pad comes out at another: over a link, or through an element. An element with a
-- pad sink_0 or sink_1 is a funnel.
pub data Flows (calls : List GstCall) : Pad → Pad → Type 0 where
  linked : {p q : Pad} → Has (link_pads p (some q)) calls → Flows calls p q
  through_scream : Flows calls (pad screamtx sink) (pad screamtx src)
  through : (k : Kind) (n : ℕ) → Flows calls (pad (created k n) sink) (pad (created k n) src)
  through_rtpbin :
      (id : ℕ) → Flows calls (pad rtpbin (send_rtp_sink id)) (pad rtpbin (send_rtp_src id))
  through_funnel_0 : (f : Element) → Flows calls (pad f sink_0) (pad f src)
  through_funnel_1 : (f : Element) → Flows calls (pad f sink_1) (pad f src)
  joined : {p q r : Pad} → Flows calls p q → Flows calls q r → Flows calls p r

-- The links by which a source gets to the rtpbin: through SCReAM, or straight.
abbrev pub Enters : Bool → ℕ → Element → List GstCall → Type 0
Enters true id e calls =
    Has (link_pads (pad e src) (some (pad screamtx sink))) calls
    × Has (link_pads (pad screamtx src) (some (pad rtpbin (send_rtp_sink id)))) calls
Enters false id e calls = Has (link_pads (pad e src) (some (pad rtpbin (send_rtp_sink id)))) calls

pub Enters-Flows :
    (scream : Bool) (id : ℕ) (e : Element) (calls : List GstCall)
    → Enters scream id e calls
    → Flows calls (pad e src) (pad rtpbin (send_rtp_sink id))
Enters-Flows true id e calls (into, out) = joined (linked into) (joined through_scream (linked out))
Enters-Flows false id e calls straight = linked straight

-- When the operation succeeds, the state after it has the property.
pub record Ensures (f : Op) (Q : RtpBin → Type 0) : Type 0 where
  pub holds : (s : RtpBin) → (f s).1 ≡ ok → Q (f s).0

abbrev pub Made : GstCall → RtpBin → Type 0
Made c s = Has c s.calls

pub first : (f g : Op) (c : GstCall) → Ensures f (Made c) → IsGrowing g → Ensures (f >> g) (Made c)
first f g c h grows = record {
  holds = λ s done. elim (then-cases f g s) [
    | inl (e, same) ↦ rw same ((grows.grows (f s).0).calls c (h.holds s e))
    | inr (same, e) ↦ absurd (e done)
  ];
}

pub second : (f g : Op) (Q : RtpBin → Type 0) → Ensures g Q → Ensures (f >> g) Q
second f g Q h = record {
  holds = λ s done. elim (then-cases f g s) [
    | inl (e, same) ↦ rw same (h.holds (f s).0 (rw⁻¹ same done))
    | inr (same, e) ↦ absurd (e done)
  ];
}

pub both : (f : Op) (Q R : RtpBin → Type 0) → Ensures f Q → Ensures f R → Ensures f (λ s. Q s × R s)
both f Q R h k = record { holds = λ s done. (h.holds s done, k.holds s done) }

module _ (works : List GstCall → GstCall → Bool) where
  pub call_or-Has :
      (r : Outcome) (c : GstCall) (s : RtpBin)
      → r ≢ ok
      → (call_or works r c s).1 ≡ ok
      → Has c (call_or works r c s).0.calls
  unfolding call_or
  call_or-Has r c s fails done = elim (Bool-cases (works s.calls c)) [
    | inl e ↦ rw e (Has-last c s.calls)
    | inr e ↦ absurd (fails (simp e at done))
  ]

  pub makes : (c : GstCall) → Ensures (call works c) (Made c)
  makes c = record { holds = λ s done. call_or-Has error c s (λ e. cc) done }

  pub makes_or_panics : (c : GstCall) → Ensures (call_or works panic c) (Made c)
  makes_or_panics c = record { holds = λ s done. call_or-Has panic c s (λ e. cc) done }

  pub makes_first : (c : GstCall) (g : Op) → IsGrowing g → Ensures (call works c >> g) (Made c)
  makes_first c g h = first (call works c) g c (makes c) h

  pub with_new-Ensures :
      (k : Kind) (next : Element → Op) (Q : RtpBin → Type 0)
      → ((n : ℕ) → Ensures (next (created k n)) Q)
      → Ensures (with_new works k next) Q
  unfolding with_new
  with_new-Ensures k next Q h = record {
    holds = λ s done.
        let e = created k (length s.calls) in
        (second (call works (new_element e)) (next e) Q (h (length s.calls))).holds s done;
  }

  -- The source that was added is linked, through SCReAM where it is enabled.
  pub add_rtp_source_stream-Enters :
      (id : ℕ) (e : Element) (s : RtpBin)
      → (add_rtp_source_stream works id e s).1 ≡ ok
      → Enters s.scream_tx id e (add_rtp_source_stream works id e s).0.calls
  unfolding add_rtp_source_stream
  add_rtp_source_stream-Enters id e s done =
      let into = link_pads (pad e src) (some (pad screamtx sink)) in
      let out = link_pads (pad screamtx src) (some (pad rtpbin (send_rtp_sink id))) in
      let plain = link_pads (pad e src) (some (pad rtpbin (send_rtp_sink id))) in
      let prefixed : Op → Op = λ rest.
        call works (add_element (some e))
        >> call works (get_pad (pad rtpbin (send_rtp_sink id)))
        >> call works (get_pad (pad e src))
        >> rest in
      elim (Bool-cases s.scream_tx) [
        | inl x ↦
            let op = prefixed (source_through_scream works id e) in
            let same : add_rtp_source_stream works id e s ≡ op s =
              simp (add_rtp_source_stream, x) in
            let enters : Ensures op (Made into) = second _ _ _ (
              second _ _ _ (
                second _ _ _ (
                  second _ _ _
                    (makes_first into _ (and_then works _ _ _ (last_call works _ _)))))) in
            let leaves : Ensures op (Made out) = second _ _ _ (
              second _ _ _
                (second _ _ _ (second _ _ _ (second _ _ _ (second _ _ _ (makes out)))))) in
            let good : (op s).1 ≡ ok = rw⁻¹ same done in
            rw same (simp (x) (enters.holds s good, leaves.holds s good))
        | inr x ↦
            let op = prefixed (link_source works (pad e src) id) in
            let same : add_rtp_source_stream works id e s ≡ op s =
              simp (add_rtp_source_stream, x) in
            let enters : Ensures op (Made plain) =
              second _ _ _ (second _ _ _ (second _ _ _ (makes plain))) in
            let good : (op s).1 ≡ ok = rw⁻¹ same done in rw same (simp (x) (enters.holds s good))
      ]
