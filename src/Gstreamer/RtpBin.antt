-- ===== src/Gstreamer/RtpBin.antt =====
-- gstreamer/rtpbin.go: the graph of elements around GStreamer's rtpbin. The calls of GStreamer are
-- recorded; whether one succeeds, after those before it, is a parameter. The goroutine that reads the
-- rate of SCReAM is not modelled.
pub mod Runs
pub mod Growth
pub mod Paths
pub mod Feedback
pub mod Routes
pub mod Scream
mod Tests
use mrtp.Prelude.{
  ℕ, ◌==◌, List, [], ◌∷◌, ◌++◌, Bool, true, false, Option, none, some, length, if◌then◌else◌,
}

pub data Kind : Type 0 where
  funnel capsfilter screamrx : Kind

-- `external` is an element that the caller made, `created` one that the code makes, with a number.
pub data Element : Type 0 where
  rtpbin : Element
  screamtx : Element
  external : ℕ → Element
  created : Kind → ℕ → Element

-- Pads by their names; the number is that of the session.
pub data PadName : Type 0 where
  sink src rtcp_src sink_0 sink_1 : PadName
  send_rtp_sink send_rtp_src send_rtcp_src recv_rtp_sink : ℕ → PadName
  recv_rtp_src : ℕ → ℕ → ℕ → PadName
  other : ℕ → PadName

pub record Pad : Type 0 where
  pub of : Element
  pub pad_name : PadName

abbrev pub pad : Element → PadName → Pad
pad e n = record { of = e; pad_name = n }

-- What the code asks of GStreamer; `none` stands for nil.
pub data GstCall : Type 0 where
  new_element : Element → GstCall
  set_caps : Element → ℕ → GstCall
  add_element : Option Element → GstCall
  sync_state : Option Element → GstCall
  get_pad : Pad → GstCall
  link_pads : Pad → Option Pad → GstCall
  link_elements : Element → Element → GstCall
  link_filtered : Element → Element → GstCall

pub data Outcome : Type 0 where
  ok error panic : Outcome

-- A stream sink as the code uses it: its element and its caps, as a number.
pub record SinkBin : Type 0 where
  pub element : Element
  pub caps : ℕ

-- `calls` are the calls that succeeded, in order.
pub record RtpBin : Type 0 where
  pub transports : ℕ → Option Element
  pub streams : ℕ → Option SinkBin
  pub rtcp_funnels : ℕ → Option Element
  pub scream_tx : Bool
  pub calls : List GstCall

abbrev pub Op : Type 0
Op = RtpBin → RtpBin × Outcome

abbrev pub set_at {ℓ} : {A : Type ℓ} → (ℕ → Option A) → ℕ → A → ℕ → Option A
set_at m id a n = if n == id then some a else m n

-- The second after the first, unless that fails.
infixr 4 ◌>>◌
unfoldable pub ◌>>◌ : Op → Op → Op
(f >> g) s =
    let (t, r) = f s in
    let after = g t in elim r [ ok ↦ after | error ↦ (t, error) | panic ↦ (t, panic) ]

abbrev pub return : Outcome → Op
return r s = (s, r)

abbrev pub static_sink : Option Element → Option Pad
static_sink none = none
static_sink (some e) = some (pad e sink)

abbrev pub requested : Outcome → Pad → Option Pad
requested ok p = some p
requested _ p = none

abbrev pub keep_funnel : ℕ → Element → Op
keep_funnel id f s = (record s { rtcp_funnels = set_at s.rtcp_funnels id f }, ok)

-- The operations, in the order in which they are called.
pub data Event : Type 0 where
  adds_transport_sink : ℕ → Element → Event
  adds_sink : ℕ → SinkBin → Event
  adds_source_stream : ℕ → Element → Event
  sends_rtcp : ℕ → Element → Event
  receives_rtp : ℕ → Element → Bool → Event
  receives_rtcp : Element → Event
  adds_pad : PadName → Event

module _ (works : List GstCall → GstCall → Bool) where
  -- A call, with what the code does when it fails.
  unfoldable pub call_or : Outcome → GstCall → Op
  call_or failed c s =
      if works s.calls c then (record s { calls = s.calls ++ c ∷ [] }, ok) else (s, failed)

  abbrev pub call : GstCall → Op
  call = call_or error

  -- `gst.NewElement`.
  unfoldable pub with_new : Kind → (Element → Op) → Op
  with_new kind next s = let e = created kind (length s.calls) in (call (new_element e) >> next e) s

  -- `setupRTPPipeline` adds the rtpbin; its handler of new pads is `pad_added`.
  unfoldable pub setup_rtp_pipeline : Op
  setup_rtp_pipeline = call (add_element (some rtpbin))

  -- The handler of the signal pad-added; what fails is only logged.
  unfoldable pub pad_added : PadName → Op
  pad_added (recv_rtp_src id ssrc pt) s = elim (s.streams id) [
    | none ↦ (s, error)
    | some stream ↦
        (call (add_element (some stream.element))
            >> call (sync_state (some stream.element))
            >> call (get_pad (pad stream.element sink))
            >> call
                (link_pads (pad rtpbin (recv_rtp_src id ssrc pt)) (some (pad stream.element sink))))
          s
  ]
  pad_added (send_rtp_src id) s =
      (call (add_element (s.transports id))
          >> call (sync_state (s.transports id))
          >> call (link_pads (pad rtpbin (send_rtp_src id)) (static_sink (s.transports id))))
        s
  pad_added _ s = (s, ok)

  unfoldable pub add_rtp_transport_sink : ℕ → Element → Op
  add_rtp_transport_sink id e s = elim (s.transports id) [
    | none ↦ (record s { transports = set_at s.transports id e }, ok)
    | some x ↦ (s, error)
  ]

  unfoldable pub add_rtp_sink : ℕ → SinkBin → Op
  add_rtp_sink id e s = elim (s.streams id) [
    | none ↦ (record s { streams = set_at s.streams id e }, ok)
    | some x ↦ (s, error)
  ]

  -- The source's pad, or that of SCReAM behind it, to the rtpbin.
  abbrev pub link_source : Pad → ℕ → Op
  link_source p id = call (link_pads p (some (pad rtpbin (send_rtp_sink id))))

  abbrev pub source_through_scream : ℕ → Element → Op
  source_through_scream id e =
      call (add_element (some screamtx))
      >> call (link_pads (pad e src) (some (pad screamtx sink)))
      >> call (get_pad (pad screamtx src))
      >> link_source (pad screamtx src) id

  unfoldable pub add_rtp_source_stream : ℕ → Element → Op
  add_rtp_source_stream id e s =
      (call (add_element (some e))
          >> call (get_pad (pad rtpbin (send_rtp_sink id)))
          >> call (get_pad (pad e src))
          >> (if s.scream_tx then source_through_scream id e else link_source (pad e src) id))
        s

  -- A new funnel is in the map before it is in the pipeline.
  unfoldable pub funnel_to_send : ℕ → (Element → Op) → Op
  funnel_to_send id next s = elim (s.rtcp_funnels id) [
    | some f ↦ next f s
    | none ↦
        with_new funnel
          (λ f.
            keep_funnel id f >> call (add_element (some f)) >> call (sync_state (some f)) >> next f)
          s
  ]

  unfoldable pub send_rtcp_for_stream : ℕ → Element → Op
  send_rtcp_for_stream id e =
      call (get_pad (pad rtpbin (send_rtcp_src id)))
      >> funnel_to_send id (λ f.
        call (link_pads (pad rtpbin (send_rtcp_src id)) (some (pad f sink_0)))
        >> call (add_element (some e))
        >> call (link_pads (pad f src) (some (pad e sink))))

  unfoldable pub funnel_to_receive : ℕ → (Element → Op) → Op
  funnel_to_receive id next s = elim (s.rtcp_funnels id) [
    | some f ↦ next f s
    | none ↦ with_new funnel (λ f. keep_funnel id f >> call (add_element (some f)) >> next f) s
  ]

  -- `GetRequestPad`, whose nil is not tested, and the link to the rtpbin.
  unfoldable pub link_receiver : Element → ℕ → Op
  link_receiver filter id s =
      let (t, r) = call (get_pad (pad rtpbin (recv_rtp_sink id))) s in
      call (link_pads (pad filter src) (requested r (pad rtpbin (recv_rtp_sink id)))) t

  abbrev pub sync_receiver : Element → Element → Op
  sync_receiver e filter = call (sync_state (some e)) >> call (sync_state (some filter))

  abbrev pub receive_through_scream : ℕ → Element → Element → Op
  receive_through_scream id e filter = with_new screamrx (λ rx.
      call (add_element (some rx))
      >> call_or panic (link_pads (pad e src) (some (pad rx sink)))
      >> call_or panic (link_pads (pad rx src) (some (pad filter sink)))
      >> funnel_to_receive id (λ f.
        call (link_pads (pad rx rtcp_src) (some (pad f sink_1)))
        >> link_receiver filter id
        >> sync_receiver e filter
        >> call (sync_state (some rx))
        >> call (sync_state (some f))))

  unfoldable pub receive_rtp_stream_from : ℕ → Element → Bool → Op
  receive_rtp_stream_from id e scream_ccfb s = elim (s.streams id) [
    | none ↦ (s, error)
    | some stream ↦
        (call (add_element (some e))
            >> with_new capsfilter (λ filter.
              call (set_caps filter stream.caps)
              >> call (add_element (some filter))
              >> (if scream_ccfb
                  then receive_through_scream id e filter
                  else call (link_elements e filter)
                    >> link_receiver filter id
                    >> sync_receiver e filter)))
          s
  ]

  unfoldable pub receive_rtcp_from : Element → Op
  receive_rtcp_from e s =
      (call (add_element (some e))
          >> (if s.scream_tx
              then call (link_filtered e screamtx)
                >> call (link_filtered screamtx rtpbin)
                >> call (sync_state (some screamtx))
              else call (link_filtered e rtpbin) >> call (sync_state (some e))))
        s

  unfoldable pub step : Event → Op
  step (adds_transport_sink id e) = add_rtp_transport_sink id e
  step (adds_sink id e) = add_rtp_sink id e
  step (adds_source_stream id e) = add_rtp_source_stream id e
  step (sends_rtcp id e) = send_rtcp_for_stream id e
  step (receives_rtp id e scream) = receive_rtp_stream_from id e scream
  step (receives_rtcp e) = receive_rtcp_from e
  step (adds_pad n) = pad_added n

  -- Errors are returned to the caller, who may go on.
  unfoldable pub run : List Event → RtpBin → RtpBin
  run [] s = s
  run (e ∷ es) s = run es (step e s).0
