-- ===== src/Gopipe/Depacketizer/Frames.antt =====
-- Frames as lists of packets, and what the assembler makes of them: gopipe/rtp_depacketizer.go.
use mathlib.Core.List.{foldl, foldl-append, map-append}
use mrtp.Prelude.{
  ℕ, ◌≡◌, ◌≢◌, refl, ap, ◌∙◌, List, [], ◌∷◌, ◌++◌, map, true, false, append-nil, append_assoc,
  if◌then◌else◌, arith,
}
use mrtp.Gopipe.Depacketizer.{Packet, EncodedFrame}
use mrtp.Gopipe.Depacketizer.Loop.{Heard, got, Assembly, assemble}

-- One packet with its bytes.
pub record Piece : Type 0 where
  pub packet : Packet
  pub bytes : List ℕ

abbrev pub heard : List Piece → List Heard
heard = map (λ c. got c.packet c.bytes)

-- A packet of the frame `ts`, which is not its last one.
abbrev pub IsBody : ℕ → List Piece → Type 0
IsBody ts [] = Unit {0}
IsBody ts (c ∷ cs) = (c.packet.timestamp ≡ ts) × (c.packet.marker ≡ false) × IsBody ts cs

abbrev pub IsEnd : ℕ → Packet → Type 0
IsEnd ts pkt = (pkt.timestamp ≡ ts) × (pkt.marker ≡ true)

abbrev pub all_bytes : List Piece → List ℕ
all_bytes [] = []
all_bytes (c ∷ cs) = c.bytes ++ all_bytes cs

module _ (a : Assembly) (c : Piece) where
  step_next :
      c.packet.timestamp ≡ a.playout_ts
      → c.packet.marker ≡ false
      → assemble a (got c.packet c.bytes) ≡ record a { frame_buffer = a.frame_buffer ++ c.bytes }
  unfolding assemble
  step_next t m = ground arith

  step_first :
      c.packet.timestamp ≢ a.playout_ts
      → c.packet.marker ≡ false
      → assemble a (got c.packet c.bytes)
        ≡ record a { playout_ts = c.packet.timestamp; frame_buffer = c.bytes; dropping = false }
  unfolding assemble
  step_first t m = ground arith

  step_end :
      IsEnd a.playout_ts c.packet
      → assemble a (got c.packet c.bytes) ≡ record a {
        frame_buffer = a.frame_buffer ++ c.bytes;
        frames =
            if a.dropping
            then a.frames
            else a.frames ++ record { bytes = a.frame_buffer ++ c.bytes; pts = a.playout_ts } ∷ [];
      }
  unfolding assemble
  step_end e = ground arith

  step_single :
      c.packet.timestamp ≢ a.playout_ts
      → c.packet.marker ≡ true
      → assemble a (got c.packet c.bytes) ≡ record {
        playout_ts = c.packet.timestamp;
        frame_buffer = c.bytes;
        dropping = false;
        frames = a.frames ++ record { bytes = c.bytes; pts = c.packet.timestamp } ∷ [];
      }
  unfolding assemble
  step_single t m = ground arith

continue :
    {a b : Assembly} (cs : List Piece)
    → a ≡ b
    → foldl assemble a (heard cs) ≡ foldl assemble b (heard cs)
continue cs e = ap (λ x. foldl assemble x (heard cs)) e

-- The body of a frame that is under way is appended, and nothing is emitted.
pub foldl-body :
    (a : Assembly) (body : List Piece)
    → IsBody a.playout_ts body
    → foldl assemble a (heard body) ≡ record a { frame_buffer = a.frame_buffer ++ all_bytes body }
foldl-body a [] b = rw append-nil
foldl-body a (c ∷ body) b =
    continue body (step_next a c b.0 b.1)
    ∙ foldl-body (record a { frame_buffer = a.frame_buffer ++ c.bytes }) body b.2
    ∙ rw append_assoc

all_bytes-append : (xs ys : List Piece) → all_bytes (xs ++ ys) ≡ all_bytes xs ++ all_bytes ys
all_bytes-append [] ys = refl
all_bytes-append (x ∷ xs) ys = rw (all_bytes-append xs ys, append_assoc)

-- The rest of a frame that is under way ends in the frame, or in nothing if it is being dropped.
pub foldl-rest :
    (a : Assembly) (body : List Piece) (last : Piece)
    → IsBody a.playout_ts body
    → IsEnd a.playout_ts last.packet
    → let whole = a.frame_buffer ++ all_bytes (body ++ last ∷ []) in
      foldl assemble a (heard (body ++ last ∷ [])) ≡ record a {
        frame_buffer = whole;
        frames =
            if a.dropping
            then a.frames
            else a.frames ++ record { bytes = whole; pts = a.playout_ts } ∷ [];
      }
foldl-rest a [] last b e = rw (step_end a last e, append-nil)
foldl-rest a (c ∷ body) last b e =
    continue (body ++ last ∷ []) (step_next a c b.0 b.1)
    ∙ foldl-rest (record a { frame_buffer = a.frame_buffer ++ c.bytes }) body last b.2 e
    ∙ rw append_assoc

-- The packets of one frame with a new time stamp give that frame, whatever was there before.
pub foldl-frame :
    (a : Assembly) (ts : ℕ) (body : List Piece) (last : Piece)
    → ts ≢ a.playout_ts
    → IsBody ts body
    → IsEnd ts last.packet
    → let whole = all_bytes (body ++ last ∷ []) in
      foldl assemble a (heard (body ++ last ∷ [])) ≡ record {
        playout_ts = ts;
        frame_buffer = whole;
        dropping = false;
        frames = a.frames ++ record { bytes = whole; pts = ts } ∷ [];
      }
foldl-frame a ts [] last new b e =
    step_single a last (ground arith) e.1 ∙ ground (arith, append-nil last.bytes)
foldl-frame a ts (c ∷ body) last new b e =
    continue (body ++ last ∷ []) (step_first a c (ground arith) b.1 ∙ rw b.0)
    ∙ foldl-rest
        (record { playout_ts = ts; frame_buffer = c.bytes; dropping = false; frames = a.frames })
        body last b.2 e

-- A whole frame: its time stamp, the packets before its last one, and its last one.
pub record Frame : Type 0 where
  pub ts : ℕ
  pub body : List Piece
  pub last : Piece

abbrev pub pieces : Frame → List Piece
pieces f = f.body ++ f.last ∷ []

abbrev pub encoded : Frame → EncodedFrame
encoded f = record { bytes = all_bytes (pieces f); pts = f.ts }

-- Frames of which each has another time stamp than the one before it.
abbrev pub IsStream : ℕ → List Frame → Type 0
IsStream ts [] = Unit {0}
IsStream ts (f ∷ fs) =
    (f.ts ≢ ts) × IsBody f.ts f.body × IsEnd f.ts f.last.packet × IsStream f.ts fs

abbrev pub all_pieces : List Frame → List Piece
all_pieces [] = []
all_pieces (f ∷ fs) = pieces f ++ all_pieces fs

pub foldl-heard :
    (a : Assembly) (xs ys : List Piece)
    → foldl assemble a (heard (xs ++ ys)) ≡ foldl assemble (foldl assemble a (heard xs)) (heard ys)
foldl-heard a xs ys =
    ap (foldl assemble a) (map-append _ xs ys) ∙ foldl-append assemble a (heard xs) (heard ys)

-- A stream with no loss gives every frame, in order, with its bytes and its time stamp.
pub frames-foldl-IsStream :
    (a : Assembly) (fs : List Frame)
    → IsStream a.playout_ts fs
    → (foldl assemble a (heard (all_pieces fs))).frames ≡ a.frames ++ map encoded fs
frames-foldl-IsStream a [] s = rw append-nil
frames-foldl-IsStream a (f ∷ fs) s =
    let first = foldl-frame a f.ts f.body f.last s.0 s.1 s.2 in
    ap (λ (x : Assembly). x.frames)
      (foldl-heard a (pieces f) (all_pieces fs) ∙ continue (all_pieces fs) first)
    ∙ frames-foldl-IsStream _ fs s.3
    ∙ rw append_assoc
