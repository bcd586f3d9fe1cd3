-- ===== src/Webrtc/Net/Marks.antt =====
-- Sequences of datagrams through `ReadFrom` of webrtc/conn.go.
use mrtp.Prelude.{
  ℕ, ◌/◌, ◌%◌, ◌≡◌, refl, ap, ◌∙◌, List, [], ◌∷◌, ◌++◌, Bool, false, Bool-cases, List-cases, ◌&&◌,
  not, Option, none, some, ◌==◌, take, Option-cases, inl, inr, if◌then◌else◌, arith,
}
use mrtp.Webrtc.Net.{
  match_range, is_rtcp, match_srtp, ControlMessage, Received, tos_of, Net, set_ecn, get_ecn,
  read_from,
}

-- Version 2 in the first byte, and no packet type of RTCP in the second; fewer than four bytes are taken
-- for RTP.
abbrev pub is_media : List ℕ → Bool
is_media [] = false
is_media (b₀ ∷ b₁ ∷ b₂ ∷ b₃ ∷ bs) = (b₀ / 64 == 2) && not (b₁ / 32 == 6)
is_media (b₀ ∷ bs) = b₀ / 64 == 2

-- The bytes of all control messages with the type of service of IPv4, one after the other.
abbrev pub tos_bytes : List ControlMessage → List ℕ
tos_bytes [] = []
tos_bytes (m ∷ ms) = if m.ip && m.tos then m.bytes ++ tos_bytes ms else tos_bytes ms

abbrev pub first_byte : List ℕ → ℕ
first_byte [] = 0
first_byte (b ∷ bs) = b

tos_of-first_byte : (ms : List ControlMessage) → tos_of ms ≡ first_byte (tos_bytes ms)
unfolding tos_of
tos_of-first_byte [] = refl
tos_of-first_byte (m ∷ ms) = elim (Bool-cases (m.ip && m.tos)) [
  | inl e ↦ elim (List-cases m.bytes) [
    | inl k ↦ simp (tos_of, tos_bytes, e, k) (tos_of-first_byte ms)
    | inr (b, (bs, k)) ↦ simp (tos_of, tos_bytes, e, k)
  ]
  | inr e ↦ simp (tos_of, tos_bytes, e) (tos_of-first_byte ms)
]

match_srtp-is_media : (b : List ℕ) → match_srtp b ≡ is_media b
unfolding match_range is_rtcp
match_srtp-is_media [] = refl
match_srtp-is_media (b₀ ∷ []) = ground (arith)
match_srtp-is_media (b₀ ∷ b₁ ∷ []) = ground (arith)
match_srtp-is_media (b₀ ∷ b₁ ∷ b₂ ∷ []) = ground (arith)
match_srtp-is_media (b₀ ∷ b₁ ∷ b₂ ∷ b₃ ∷ bs) = ground (arith)

module _ (parse_rtp_header : List ℕ → Option (ℕ × ℕ)) where
  abbrev pub read_all : Net → List Received → Net
  read_all net [] = net
  read_all net (r ∷ rs) = read_all (read_from parse_rtp_header net r).0 rs

  -- The mark that a datagram carries for a packet: it is an RTP packet with that SSRC and sequence
  -- number, read without an error and with control messages.
  unfoldable pub mark : ℕ → ℕ → Received → Option ℕ
  mark ssrc sn r = elim r.messages [
    | none ↦ none
    | some messages ↦ elim (parse_rtp_header (take r.n r.buffer)) [
      | none ↦ none
      | some h ↦
          if not r.failed && is_media r.buffer && (ssrc == h.0) && (sn == h.1)
          then some (first_byte (tos_bytes messages) % 4)
          else none
    ]
  ]

  abbrev pub or_else : Option ℕ → Option ℕ → Option ℕ
  or_else none b = b
  or_else (some a) b = some a

  -- The latest mark for a packet.
  unfoldable pub latest : ℕ → ℕ → List Received → Option ℕ
  latest ssrc sn [] = none
  latest ssrc sn (r ∷ rs) = or_else (latest ssrc sn rs) (mark ssrc sn r)

  read_from_lem :
      (net : Net) (r : Received) (ssrc sn : ℕ)
      → (read_from parse_rtp_header net r).0 ssrc sn ≡ or_else (mark ssrc sn r) (net ssrc sn)
  unfolding read_from mark set_ecn
  read_from_lem net r ssrc sn =
      let media = match_srtp-is_media r.buffer in
      elim (Option-cases r.messages) [
        | inl e ↦ ground (arith, e)
        | inr (ms, e) ↦ elim (Option-cases (parse_rtp_header (take r.n r.buffer))) [
          | inl x ↦ ground (arith, e, x, media, tos_of-first_byte ms)
          | inr (h, x) ↦ ground (arith, e, x, media, tos_of-first_byte ms)
        ]
      ]

  or_else_assoc : (a b c : Option ℕ) → or_else a (or_else b c) ≡ or_else (or_else a b) c
  or_else_assoc none b c = refl
  or_else_assoc (some a) b c = refl

  read_all_lem :
      (net : Net) (rs : List Received) (ssrc sn : ℕ)
      → read_all net rs ssrc sn ≡ or_else (latest ssrc sn rs) (net ssrc sn)
  unfolding latest
  read_all_lem net [] ssrc sn = refl
  read_all_lem net (r ∷ rs) ssrc sn =
      read_all_lem (read_from parse_rtp_header net r).0 rs ssrc sn
      ∙ rw (read_from_lem net r ssrc sn)
          (or_else_assoc (latest ssrc sn rs) (mark ssrc sn r) (net ssrc sn))

  abbrev pub or_zero : Option ℕ → ℕ
  or_zero none = 0
  or_zero (some ecn) = ecn

  or_else-none : (o : Option ℕ) → or_else o none ≡ o
  or_else-none none = refl
  or_else-none (some a) = refl

  get_ecn-or_zero : (net : Net) (ssrc sn : ℕ) → get_ecn net ssrc sn ≡ or_zero (net ssrc sn)
  unfolding get_ecn
  get_ecn-or_zero net ssrc sn = elim (Option-cases (net ssrc sn)) [
    | inl e ↦ rw (get_ecn, e)
    | inr (ecn, e) ↦ rw (get_ecn, e)
  ]

  -- After any number of datagrams, the ECN bits that are found for an SSRC and a sequence number are those
  -- of the latest RTP packet with both that was read without an error: the low two bits of the first byte
  -- in its control messages of IPv4's type of service, which are 0 without such a byte, as for IPv6.
  -- They are 0 where there is no such packet.
  pub get_ecn-read_all :
      (rs : List Received) (ssrc sn : ℕ)
      → get_ecn (read_all (λ s q. none) rs) ssrc sn ≡ or_zero (latest ssrc sn rs)
  get_ecn-read_all rs ssrc sn =
      get_ecn-or_zero (read_all (λ s q. none) rs) ssrc sn
      ∙ ap or_zero (read_all_lem (λ s q. none) rs ssrc sn ∙ or_else-none (latest ssrc sn rs))
