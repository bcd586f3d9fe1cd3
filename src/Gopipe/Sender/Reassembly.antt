-- ===== src/Gopipe/Sender/Reassembly.antt =====
-- What the packetizer of gopipe/rtp_packetizer.go cuts a frame into, and what the depacketizer of
-- gopipe/rtp_depacketizer.go makes of it.
use mathlib.Core.List.{map-append}
use mrtp.Prelude.{ℕ, ◌≡◌, ◌≢◌, refl, sym, ap, ◌∙◌, List, [], ◌∷◌, map, All, Option, some}
use mrtp.Prelude.Int.{ℤ}
use mrtp.Gopipe.Attributes.{Attributes, ok, get_pts}
use mrtp.Gopipe.Packetizer.{Rtp}
use mrtp.Gopipe.Spacer.{Sent, each_with}
use mrtp.Gopipe.Sender as Sender
use mrtp.Gopipe.Sender.Frames.{marshaled, frame_packets, all_packets}
use mrtp.Gopipe.Depacketizer.{Packet, EncodedFrame}
use mrtp.Gopipe.Depacketizer.Frames.{
  Piece, Frame, IsBody, IsEnd, IsStream, all_bytes, pieces, encoded, all_pieces,
}

abbrev pub packets_of : List Piece → List (Option Packet)
packets_of = map (λ c. some c.packet)

abbrev pub payloads_of : List Sent → List (List ℕ)
payloads_of = map (λ s. s.0)

abbrev pub bytes_of : List Sender.Frame → List (List ℕ)
bytes_of = map (λ f. f.0)

abbrev pub IsFilled : List ℕ → Type 0
IsFilled [] = ⊥
IsFilled (x ∷ b) = Unit {0}

-- pion's packetizer on the frames that it gets and `n` samples for each of them, and pion's parser of
-- packets: all packets of a frame that is not empty are marshaled and parse again, they carry the bytes
-- of the frame and one time stamp, the marker is on the last one, and the next frame has another time
-- stamp. What `frame_of` is for an empty frame, of which there are no packets, does not matter.
pub record Cuts (R : Rtp) (parse : List ℕ → Option Packet) (n : ℕ) : Type 0 where
  pub frame_of : R.State → List ℕ → Frame
  pub buffers : R.State → List ℕ → List (List ℕ)
  pub marshals :
      (st : R.State) (b : List ℕ)
      → IsFilled b
      → marshaled R (R.packetize b n st).1 ≡ some (buffers st b)
  pub parses :
      (st : R.State) (b : List ℕ)
      → IsFilled b
      → map parse (buffers st b) ≡ packets_of (pieces (frame_of st b))
  pub whole : (st : R.State) (b : List ℕ) → IsFilled b → all_bytes (pieces (frame_of st b)) ≡ b
  pub body : (st : R.State) (b : List ℕ) → IsBody (frame_of st b).ts (frame_of st b).body
  pub end_marked :
      (st : R.State) (b : List ℕ) → IsEnd (frame_of st b).ts (frame_of st b).last.packet
  pub next_ts :
      (st : R.State) (b c : List ℕ)
      → IsFilled b
      → (frame_of (R.packetize b n st).0 c).ts ≢ (frame_of st b).ts

-- That the frame is not empty and has a time stamp.
abbrev pub IsSendable : Sender.Frame → Type 0
IsSendable f = IsFilled f.0 × ((t : ℤ) × (get_pts f.1 ≡ ok t))

payloads_of-each_with :
    (bufs : List (List ℕ)) (a : Attributes) → payloads_of (each_with bufs a) ≡ bufs
payloads_of-each_with [] a = refl
payloads_of-each_with (b ∷ bufs) a = rw (payloads_of-each_with bufs a)

module _ {R : Rtp} {parse : List ℕ → Option Packet} {n : ℕ} (cuts : Cuts R parse n) where
  abbrev pub frames_of : R.State → List Sender.Frame → List Frame
  frames_of st [] = []
  frames_of st ((b, a) ∷ fs) = cuts.frame_of st b ∷ frames_of (R.packetize b n st).0 fs

  pub frames_of-IsStream :
      (ts : ℕ) (st : R.State) (fs : List Sender.Frame)
      → All IsSendable fs
      → ((b : List ℕ) → (cuts.frame_of st b).ts ≢ ts)
      → IsStream ts (frames_of st fs)
  frames_of-IsStream ts st [] sendable new = tt
  frames_of-IsStream ts st ((b, a) ∷ fs) sendable new = (
    new b,
    cuts.body st b,
    cuts.end_marked st b,
    frames_of-IsStream (cuts.frame_of st b).ts (R.packetize b n st).0 fs sendable.1
        (λ c. cuts.next_ts st b c sendable.0.0),
  )

  pub frames_of-bytes :
      (st : R.State) (fs : List Sender.Frame)
      → All IsSendable fs
      → map (λ (e : EncodedFrame). e.bytes) (map encoded (frames_of st fs)) ≡ bytes_of fs
  frames_of-bytes st [] sendable = refl
  frames_of-bytes st ((b, a) ∷ fs) sendable =
      rw (cuts.whole st b sendable.0.0, frames_of-bytes (R.packetize b n st).0 fs sendable.1)

  frame_packets-parse :
      (st : R.State) (b : List ℕ) (a : Attributes)
      → IsSendable (b, a)
      → map parse (payloads_of (frame_packets R (R.packetize b n st).1 a))
        ≡ packets_of (pieces (cuts.frame_of st b))
  frame_packets-parse st b a (filled, (t, stamped)) =
      let all_of : frame_packets R (R.packetize b n st).1 a ≡ each_with (cuts.buffers st b) a =
        simp (frame_packets, stamped, cuts.marshals st b filled) in
      ap (λ x. map parse (payloads_of x)) all_of
      ∙ ap (map parse) (payloads_of-each_with (cuts.buffers st b) a)
      ∙ cuts.parses st b filled

  pub all_packets-parse :
      (st : R.State) (fs : List Sender.Frame)
      → All IsSendable fs
      → map parse (payloads_of (all_packets R n st fs)) ≡ packets_of (all_pieces (frames_of st fs))
  all_packets-parse st [] stamped = refl
  all_packets-parse st ((b, a) ∷ fs) stamped =
      let later = (R.packetize b n st).0 in
      let here = frame_packets R (R.packetize b n st).1 a in
      ap (map parse) (map-append (λ s. s.0) here (all_packets R n later fs))
      ∙ map-append parse (payloads_of here) (payloads_of (all_packets R n later fs))
      ∙ rw (frame_packets-parse st b a stamped.0, all_packets-parse later fs stamped.1)
          (sym (
            map-append (λ (c : Piece). some c.packet) (pieces (cuts.frame_of st b))
              (all_pieces (frames_of later fs))))
