-- ===== src/Gopipe/Coders.antt =====
-- gopipe/encoder.go and gopipe/decoder.go. The coders themselves are bindings to C libraries, and
-- parameters here. A frame that is given to the encoder is a slice whose capacity is its length.
use mrtp.Prelude.{
  ℕ, ◌+◌, ◌*◌, ◌/◌, ◌%◌, ◌^◌, List, Bool, Option, none, some, ltb, length, take, drop,
  if◌then◌else◌,
}
use mrtp.Prelude.Int.{ℤ}
use mrtp.Gopipe.Codec.{CodecType, vp8, vp9, h264}
use mrtp.Gopipe.Attributes.{
  Ratio, Attributes, bool, int, ratio, is_key_frame, width, height, chroma_subsampling,
  set_attribute, Result, ok, error, panic, ◌>>=◌, unsupported_codec, codec_failed, no_decoder,
  get_pts, get_frame_duration, get_chroma_subsampling,
}
use mrtp.Gopipe.Pipeline.{Info, Sink}

pub record Image : Type 0 where
  pub y : List ℕ
  pub cb : List ℕ
  pub cr : List ℕ
  pub subsample_ratio : Ratio

-- `codec.Config`.
pub record Config : Type 0 where
  pub codec : CodecType
  pub width : ℕ
  pub height : ℕ
  pub target_rate : ℕ
  pub timebase_num : ℤ
  pub timebase_den : ℤ

-- `codec.Frame`.
pub record EncodedPicture : Type 0 where
  pub payload : List ℕ
  pub is_key_frame : Bool

-- `codec.DecodedFrame`.
pub record DecodedFrame : Type 0 where
  pub bytes : List ℕ
  pub width : ℤ
  pub height : ℤ
  pub subsample_ratio : Ratio

-- The package gopipe/codec; `none` is an error.
pub record Codecs : Type 1 where
  pub VpxEncoder : Type 0
  pub X264Encoder : Type 0
  pub H264Decoder : Type 0
  pub VpxDecoder : Type 0
  pub new_vpx_encoder : Config → Option VpxEncoder
  pub new_x264_encoder : Config → Option X264Encoder
  pub encode_vpx : Image → ℤ → ℤ → VpxEncoder → VpxEncoder × Option EncodedPicture
  pub encode_x264 : Image → X264Encoder → X264Encoder × Option EncodedPicture
  pub set_vpx_rate : ℕ → VpxEncoder → VpxEncoder
  pub set_x264_rate : ℕ → X264Encoder → X264Encoder
  pub new_h264_decoder : Option H264Decoder
  pub new_vpx_decoder : CodecType → Option VpxDecoder
  pub decode_h264 : List ℕ → H264Decoder → H264Decoder × Option DecodedFrame
  pub decode_vpx : List ℕ → VpxDecoder → VpxDecoder × Option DecodedFrame

module _ (C : Codecs) where
  open C use {
    VpxEncoder, X264Encoder, H264Decoder, VpxDecoder, new_vpx_encoder, new_x264_encoder, encode_vpx,
    encode_x264, set_vpx_rate, set_x264_rate, new_h264_decoder, new_vpx_decoder, decode_h264,
    decode_vpx,
  }

  pub record Encoder : Type 0 where
    pub vpx_enc : Option VpxEncoder
    pub x264_enc : Option X264Encoder
    pub codec : CodecType

  abbrev pub new_encoder : CodecType → Encoder
  new_encoder c = record { vpx_enc = none; x264_enc = none; codec = c }

  abbrev pub config_of : CodecType → Info → Config
  config_of c i = record {
    codec = c;
    width = i.width;
    height = i.height;
    target_rate = 750_000;
    timebase_num = i.timebase_num;
    timebase_den = i.timebase_den;
  }

  abbrev pub with_vpx : Encoder → Info → Result Encoder
  with_vpx e i = elim (new_vpx_encoder (config_of e.codec i)) [
    | none ↦ error codec_failed
    | some enc ↦ ok (record e { vpx_enc = some enc })
  ]

  -- What `Link` does before it returns the sink.
  unfoldable pub link_encoder : Encoder → Info → Result Encoder
  link_encoder e i = elim e.codec [
    | vp8 ↦ with_vpx e i
    | vp9 ↦ with_vpx e i
    | h264 ↦ elim (new_x264_encoder (config_of e.codec i)) [
      | none ↦ error codec_failed
      | some enc ↦ ok (record e { x264_enc = some enc })
    ]
    | _ ↦ error unsupported_codec
  ]

  -- The three planes of the frame, or a slice out of range; the sizes are of type `uint`.
  unfoldable pub planes : Info → List ℕ → Ratio → Result Image
  planes i b csr =
      let y_size = (i.width * i.height) % 2 ^ 64 in
      let u_size = y_size / 4 in
      if ltb (length b) (y_size + u_size)
      then panic
      else ok (record {
        y = take y_size b;
        cb = take u_size (drop y_size b);
        cr = drop (y_size + u_size) b;
        subsample_ratio = csr;
      })

  pub record EncoderInput : Type 0 where
    pub image : Image
    pub pts : ℤ
    pub frame_duration : ℤ

  unfoldable pub encoder_input : Info → List ℕ → Attributes → Result EncoderInput
  encoder_input i b a = do
    frame_duration ← get_frame_duration a
    pts ← get_pts a
    csr ← get_chroma_subsampling a
    image ← planes i b csr
    ok (record { image = image; pts = pts; frame_duration = frame_duration })

  -- One of the two encoders; with neither, the nil frame is used.
  unfoldable pub encode : Encoder → EncoderInput → Encoder × Result EncodedPicture
  encode e x = elim e.vpx_enc [
    | some enc ↦
        let (enc', r) = encode_vpx x.image x.pts x.frame_duration enc in
        let e' = record e { vpx_enc = some enc' } in
        elim r [ none ↦ (e', error codec_failed) | some frame ↦ (e', ok frame) ]
    | none ↦ elim e.x264_enc [
      | some enc ↦
          let (enc', r) = encode_x264 x.image enc in
          let e' = record e { x264_enc = some enc' } in
          elim r [ none ↦ (e', error codec_failed) | some frame ↦ (e', ok frame) ]
      | none ↦ (e, panic)
    ]
  ]

  -- The sink that `Encoder.Link` returns, before the sink `next`.
  unfoldable pub write_encoder : {W : Type 0} → Info → Sink W → Sink (Encoder × W)
  write_encoder i next b a s = elim (encoder_input i b a) [
    | error e ↦ (s, error e)
    | panic ↦ (s, panic)
    | ok x ↦
        let (enc, r) = encode s.0 x in
        elim r [
          | error e ↦ ((enc, s.1), error e)
          | panic ↦ ((enc, s.1), panic)
          | ok frame ↦
              let (w, out) =
                next frame.payload (set_attribute a is_key_frame (bool frame.is_key_frame)) s.1 in
              ((enc, w), out)
        ]
  ]

  -- `SetTargetRate`; `reduced` is `uint64(0.9 * float64(targetRate))`.
  unfoldable pub set_target_rate : Encoder → ℕ → Encoder
  set_target_rate e reduced = elim e.vpx_enc [
    | some enc ↦ record e { vpx_enc = some (set_vpx_rate reduced enc) }
    | none ↦ elim e.x264_enc [
      | some enc ↦ record e { x264_enc = some (set_x264_rate reduced enc) }
      | none ↦ e
    ]
  ]

  pub record Decoder : Type 0 where
    pub x264dec : Option H264Decoder
    pub vpxdec : Option VpxDecoder

  abbrev pub with_vpx_decoder : CodecType → Result Decoder
  with_vpx_decoder c = elim (new_vpx_decoder c) [
    | none ↦ error codec_failed
    | some dec ↦ ok (record { x264dec = none; vpxdec = some dec })
  ]

  unfoldable pub new_decoder : CodecType → Result Decoder
  new_decoder h264 = elim new_h264_decoder [
    | none ↦ error codec_failed
    | some dec ↦ ok (record { x264dec = some dec; vpxdec = none })
  ]
  new_decoder vp8 = with_vpx_decoder vp8
  new_decoder vp9 = with_vpx_decoder vp9
  new_decoder _ = error unsupported_codec

  unfoldable pub decode : Decoder → List ℕ → Decoder × Result DecodedFrame
  decode d b = elim d.x264dec [
    | some dec ↦
        let (dec', r) = decode_h264 b dec in
        let d' = record d { x264dec = some dec' } in
        elim r [ none ↦ (d', error codec_failed) | some frame ↦ (d', ok frame) ]
    | none ↦ elim d.vpxdec [
      | some dec ↦
          let (dec', r) = decode_vpx b dec in
          let d' = record d { vpxdec = some dec' } in
          elim r [ none ↦ (d', error codec_failed) | some frame ↦ (d', ok frame) ]
      | none ↦ (d, error no_decoder)
    ]
  ]

  abbrev pub decoded_attributes : Attributes → DecodedFrame → Attributes
  decoded_attributes a frame =
      set_attribute
        (set_attribute (set_attribute a width (int frame.width)) height (int frame.height))
        chroma_subsampling (ratio frame.subsample_ratio)

  -- The sink that `Decoder.Link` returns. An attribute map that has a time stamp is not nil.
  unfoldable pub write_decoder : {W : Type 0} → Sink W → Sink (Decoder × W)
  write_decoder next b a s = elim (get_pts a) [
    | error e ↦ (s, error e)
    | panic ↦ (s, panic)
    | ok n ↦
        let (dec, r) = decode s.0 b in
        elim r [
          | error e ↦ ((dec, s.1), error e)
          | panic ↦ ((dec, s.1), panic)
          | ok frame ↦
              let (w, out) = next frame.bytes (decoded_attributes a frame) s.1 in ((dec, w), out)
        ]
  ]
