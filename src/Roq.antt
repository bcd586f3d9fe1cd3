-- ===== src/Roq.antt =====
-- roq/sender.go, roq/receiver.go, and the streams that subcmd/send_go.go and subcmd/receive_go.go hand to the
-- RTP-over-QUIC session or to the data channels. The session itself is the library roq's and a parameter.
mod Tests
use mrtp.Prelude.{
  ℕ, suc, List, [], ◌∷◌, ◌++◌, Bool, true, false, ◌||◌, ◌==◌, Option, none, some, length,
  if◌then◌else◌,
}

-- `SendMode`; a mode that is none of the constants is possible.
pub data SendMode : Type 0 where
  datagram_mode : SendMode
  stream_per_packet : SendMode
  single_stream : SendMode
  invalid_mode : SendMode

-- The calls of a flow and of its streams, on the state they share: `none` and `false` are errors.
pub record Flow (W : Type 0) : Type 0 where
  pub write_datagram : List ℕ → W → W × Bool
  pub new_send_stream : W → W × Option ℕ
  pub write_stream : ℕ → List ℕ → W → W × (ℕ × Bool)
  pub close_stream : ℕ → W → W

-- The stream that is kept open, if there is one.
pub record Sender : Type 0 where
  pub mode : SendMode
  pub stream : Option ℕ

-- How `Write` returns: the count of bytes with whether there was an error, or a panic for a nil stream.
pub data Written : Type 0 where
  wrote : ℕ → Bool → Written
  nil_stream : Written

module _ {W : Type 0} (flow : Flow W) where
  open flow use {write_datagram, new_send_stream, write_stream, close_stream}

  unfoldable pub new_sender : SendMode → W → W × Option Sender
  new_sender single_stream w =
      let (w', s) = new_send_stream w in
      (
        w',
        elim s [ none ↦ none | some n ↦ some (record { mode = single_stream; stream = some n }) ],
      )
  new_sender m w = (w, some (record { mode = m; stream = none }))

  -- A stream for each packet is closed once it is written.
  unfoldable pub write_rtp : Sender → List ℕ → W → W × Written
  write_rtp s b w = elim s.mode [
    | datagram_mode ↦ let (w', sent) = write_datagram b w in (w', wrote (length b) sent)
    | stream_per_packet ↦
        let (w1, o) = new_send_stream w in
        elim o [
          | none ↦ (w1, wrote 0 false)
          | some n ↦ let (w2, (k, sent)) = write_stream n b w1 in (close_stream n w2, wrote k sent)
        ]
    | single_stream ↦ elim s.stream [
      | none ↦ (w, nil_stream)
      | some n ↦ let (w', (k, sent)) = write_stream n b w in (w', wrote k sent)
    ]
    | invalid_mode ↦ (w, wrote 0 false)
  ]

-- What `Read` of a receive flow gives: bytes, that a stream was cancelled, or another error with a count.
pub data FlowRead : Type 0 where
  read_bytes : List ℕ → FlowRead
  stream_cancelled : FlowRead
  read_failed : ℕ → FlowRead

-- `Receiver.Read`: the count, and whether there was an error; a cancelled stream is a read of no bytes.
unfoldable pub read_rtp : FlowRead → ℕ × Bool
read_rtp (read_bytes b) = (length b, true)
read_rtp stream_cancelled = (0, true)
read_rtp (read_failed n) = (n, false)

-- The flows of RTP and of RTCP in both directions, and whether data channels are used.
pub record Flows : Type 0 where
  pub rtp_flow_id : ℕ
  pub rtcp_recv_flow_id : ℕ
  pub rtcp_send_flow_id : ℕ
  pub datachannel : Bool

pub data Target : Type 0 where
  to_roq : Target
  to_data_channels : Target
  unknown_flow : Target

-- `HandleUniStream`, as both commands set it; `unknown_flow` is a panic.
unfoldable pub handle_uni_stream : Flows → ℕ → Target
handle_uni_stream f flow_id =
    if flow_id == f.rtp_flow_id || flow_id == f.rtcp_recv_flow_id || flow_id == f.rtcp_send_flow_id
    then to_roq
    else (if f.datachannel then to_data_channels else unknown_flow)
