-- ===== src/Webrtc/Net.antt =====
-- webrtc/mux.go, and of webrtc/conn.go and webrtc/net.go the ECN bits of the RTP packets received.
pub mod Marks
use mrtp.Prelude.{
  ℕ, zero, suc, ◌%◌, ◌≡◌, List, [], ◌∷◌, Bool, true, false, ◌&&◌, ◌||◌, not, Option, none, some,
  ◌==◌, leb, ltb, length, take, if◌then◌else◌,
}

-- Whether the first byte lies in the range.
unfoldable pub match_range : ℕ → ℕ → List ℕ → Bool
match_range lower upper [] = false
match_range lower upper (b ∷ buf) = leb lower b && leb b upper

abbrev pub match_srtp_or_srtcp : List ℕ → Bool
match_srtp_or_srtcp b = match_range 128 191 b

unfoldable pub is_rtcp : List ℕ → Bool
is_rtcp (b₀ ∷ b₁ ∷ b₂ ∷ b₃ ∷ buf) = leb 192 b₁ && leb b₁ 223
is_rtcp _ = false

abbrev pub match_srtp : List ℕ → Bool
match_srtp buf = match_srtp_or_srtcp buf && not (is_rtcp buf)

-- A control message of the socket: whether it is for `IPPROTO_IP` and `IP_TOS`, and its bytes.
pub record ControlMessage : Type 0 where
  pub ip : Bool
  pub tos : Bool
  pub bytes : List ℕ

-- What one `ReadMsgUDP` leaves: its error, the count, the caller's whole buffer, and the control
-- messages, where `none` is an error of their parser.
pub record Received : Type 0 where
  pub failed : Bool
  pub n : ℕ
  pub buffer : List ℕ
  pub messages : Option (List ControlMessage)

-- The loop over the control messages, with its break.
unfoldable pub tos_of : List ControlMessage → ℕ
tos_of [] = 0
tos_of (m ∷ ms) =
    let rest = tos_of ms in if m.ip && m.tos then elim m.bytes [ [] ↦ rest | b ∷ bs ↦ b ] else rest

-- `ecnMap`, by SSRC and sequence number.
abbrev pub Net : Type 0
Net = ℕ → ℕ → Option ℕ

unfoldable pub set_ecn : Net → ℕ → ℕ → ℕ → Net
set_ecn net ssrc sn ecn s q = if (s == ssrc) && (q == sn) then some ecn else net s q

unfoldable pub get_ecn : Net → ℕ → ℕ → ℕ
get_ecn net ssrc sn = elim (net ssrc sn) [ none ↦ 0 | some ecn ↦ ecn ]

-- `parse_rtp_header` is pion's parser: the SSRC and the sequence number.
module _ (parse_rtp_header : List ℕ → Option (ℕ × ℕ)) where
  -- `udpConn.ReadFrom`; `false` is an error.
  unfoldable pub read_from : Net → Received → Net × Bool
  read_from net r =
      if r.failed
      then (net, false)
      else if match_srtp r.buffer
      then elim r.messages [
        | none ↦ (net, false)
        | some messages ↦ elim (parse_rtp_header (take r.n r.buffer)) [
          | none ↦ (net, true)
          | some h ↦ (set_ecn net h.0 h.1 (tos_of messages % 4), true)
        ]
      ]
      else (net, true)
