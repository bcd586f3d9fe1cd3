-- ===== src/Gopipe/Packetizer.antt =====
-- gopipe/rtp_packetizer.go: encoded frames cut into RTP packets. The packetizer and the payloaders are
-- pion's, and parameters here; so are the two roundings of floating point numbers.
use mrtp.Prelude.{ℕ, List, [], ◌∷◌, Option, none, some}
use mrtp.Prelude.Int.{ℤ}
use mrtp.Logging.Unwrapper.{Unwrapper, new_unwrapper, unwrap}
use mrtp.Gopipe.Codec.{CodecType, vp8, vp9, h264, fake, unknown_codec}
use mrtp.Gopipe.Attributes.{Result, ok, error, panic, unsupported_codec, not_marshaled, get_pts}
use mrtp.Gopipe.Pipeline.{Info, Sink, MultiSink, write_each}

pub data Payloader : Type 0 where
  vp8_payloader vp9_payloader h264_payloader g722_payloader : Payloader

unfoldable pub get_packetizer_by_name : CodecType → Result Payloader
get_packetizer_by_name vp8 = ok vp8_payloader
get_packetizer_by_name vp9 = ok vp9_payloader
get_packetizer_by_name h264 = ok h264_payloader
get_packetizer_by_name fake = ok g722_payloader
get_packetizer_by_name unknown_codec = error unsupported_codec

-- The fields of `RTPPacketizerFactory`.
pub record PacketizerFactory : Type 0 where
  pub mtu : ℕ
  pub pt : ℕ
  pub ssrc : ℕ
  pub clock_rate : ℕ
  pub codec : CodecType

-- pion's packages rtp and codecs. `samples d r` is `uint32(d.Seconds() * float64(r))`, `period n d` is
-- `time.Duration(float64(time.Second) / (float64(n) / float64(d)))`.
pub record Rtp : Type 1 where
  pub State : Type 0
  pub RtpPacket : Type 0
  pub new_packetizer : PacketizerFactory → Payloader → State
  pub packetize : List ℕ → ℕ → State → State × List RtpPacket
  pub marshal : RtpPacket → Option (List ℕ)
  pub sequence_number : RtpPacket → ℕ
  pub samples : ℤ → ℕ → ℕ
  pub period : ℤ → ℤ → ℤ

-- The next element is a `MultiWriter`, or a mere `Sink`.
pub data Next (W : Type 0) : Type 0 where
  single : Sink W → Next W
  multi : MultiSink W → Next W

abbrev pub write_packets : {W : Type 0} → Next W → MultiSink W
write_packets (single write) = write_each write
write_packets (multi write_all) = write_all

module _ (R : Rtp) where
  open R use {
    State, RtpPacket, new_packetizer, packetize, marshal, sequence_number, samples, period,
  }

  pub record RtpPacketizer : Type 0 where
    pub factory : PacketizerFactory
    pub frame_duration : ℤ
    pub packetizer : State
    pub unwrapper : Unwrapper

  -- `RTPPacketizerFactory.Link`.
  unfoldable pub link_packetizer : PacketizerFactory → Info → Result RtpPacketizer
  link_packetizer p i = elim (get_packetizer_by_name p.codec) [
    | error e ↦ error e
    | panic ↦ panic
    | ok payloader ↦ ok (record {
      factory = p;
      frame_duration = period i.timebase_num i.timebase_den;
      packetizer = new_packetizer p payloader;
      unwrapper = new_unwrapper;
    })
  ]

  -- The loop over the packets: each is unwrapped for the log once it is marshaled.
  unfoldable pub marshal_all : List RtpPacket → Unwrapper → Unwrapper × Result (List (List ℕ))
  marshal_all [] u = (u, ok [])
  marshal_all (p ∷ ps) u =
      let (v, r) = marshal_all ps (unwrap u (sequence_number p)).0 in
      elim (marshal p) [
        | none ↦ (u, error not_marshaled)
        | some buf ↦ elim r [
          | ok bufs ↦ (v, ok (buf ∷ bufs))
          | error e ↦ (v, error e)
          | panic ↦ (v, panic)
        ]
      ]

  -- `RTPPacketizer.Write`.
  unfoldable pub write_packetizer : {W : Type 0} → Next W → Sink (RtpPacketizer × W)
  write_packetizer next b a s =
      let p = s.0 in
      let (st, pkts) = packetize b (samples p.frame_duration p.factory.clock_rate) p.packetizer in
      let q = record p { packetizer = st } in
      elim (get_pts a) [
        | error e ↦ ((q, s.1), error e)
        | panic ↦ ((q, s.1), panic)
        | ok n ↦
            let (u, bufs) = marshal_all pkts p.unwrapper in
            let q' = record q { unwrapper = u } in
            elim bufs [
              | error e ↦ ((q', s.1), error e)
              | panic ↦ ((q', s.1), panic)
              | ok bs ↦ let (w, r) = write_packets next bs a s.1 in ((q', w), r)
            ]
      ]
