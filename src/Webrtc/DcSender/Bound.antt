-- ===== src/Webrtc/DcSender/Bound.antt =====
-- How much the sender of webrtc/dc_sender.go lets the buffer of its data channel grow.
use mrtp.Prelude.{
  ℕ, ◌+◌, ◌*◌, ◌-◌, ◌≤◌, ◌<◌, ◌≡◌, ◌≢◌, ◌⊎◌, subst, List, [], ◌∷◌, ◌++◌, Bool, true, false, ltb,
  leb, ◌&&◌, length, All, Bool-cases, inl, inr, arith,
}
use mrtp.Webrtc.DcSender.{
  buffered_amount_low_threshold, max_buffered_amount, SendLoop, taking, checking, waiting, failed,
  DcSender, new_dc_sender, send, check, release, Step, sends, checks, send_fails, resumes, releases,
  Steps, here, later,
}

-- The most that may be buffered where messages have at most `m` bytes: an entry of `sendMore` may be left from
-- an earlier fall, and lets one message through.
abbrev limit : ℕ → SendLoop → Bool → ℕ
limit m taking true = max_buffered_amount
limit m taking false = max_buffered_amount + m
limit m checking true = max_buffered_amount + m
limit m checking false = max_buffered_amount + 2 * m
limit m waiting true = max_buffered_amount + m
limit m waiting false = max_buffered_amount + 2 * m
limit m failed more = max_buffered_amount + 2 * m

abbrev IsShort : ℕ → List ℕ → Type 0
IsShort m b = length b ≤ m

All-last :
    (m : ℕ) (bs : List (List ℕ)) (b : List ℕ)
    → All (IsShort m) (bs ++ b ∷ [])
    → All (IsShort m) bs × IsShort m b
All-last m [] b h = (tt, h.0)
All-last m (c ∷ bs) b h = ((h.0, (All-last m bs b h.1).0), (All-last m bs b h.1).1)

limit-least : (m : ℕ) (l : SendLoop) (more : Bool) → max_buffered_amount ≤ limit m l more
limit-least m taking true = omega arith
limit-least m taking false = omega arith
limit-least m checking true = omega arith
limit-least m checking false = omega arith
limit-least m waiting true = omega arith
limit-least m waiting false = omega arith
limit-least m failed more = omega arith

limit-most : (m : ℕ) (l : SendLoop) (more : Bool) → limit m l more ≤ max_buffered_amount + 2 * m
limit-most m taking true = omega arith
limit-most m taking false = omega arith
limit-most m checking true = omega arith
limit-most m checking false = omega arith
limit-most m waiting true = omega arith
limit-most m waiting false = omega arith
limit-most m failed more = omega arith

limit-send : (m : ℕ) (more : Bool) → limit m taking more + m ≤ limit m checking more
limit-send m true = omega arith
limit-send m false = omega arith

module _ (m : ℕ) where
  abbrev Fits : DcSender → Type 0
  Fits s = s.buffered_amount ≤ limit m s.send_loop s.send_more

  send-Fits :
      (s : DcSender) (b : List ℕ) → s.send_loop ≡ taking → length b ≤ m → Fits s → Fits (send s b)
  unfolding send
  send-Fits s b l short h =
      let h' : s.buffered_amount ≤ limit m taking s.send_more = rw⁻¹ l h in
      omega (arith, h', short, limit-send m s.send_more)

  check-limit : (more : Bool) → limit m checking more ≤ limit m waiting more
  check-limit true = omega arith
  check-limit false = omega arith

  check-Fits : (s : DcSender) → s.send_loop ≡ checking → Fits s → Fits (check s)
  unfolding check
  check-Fits s l h =
      let h' : s.buffered_amount ≤ limit m checking s.send_more = rw⁻¹ l h in
      elim (Bool-cases (ltb max_buffered_amount s.buffered_amount)) [
        | inl e ↦ simp (e) (omega (arith, h', check-limit s.send_more))
        | inr e ↦ simp (e) (ground (arith, e, limit-least m taking s.send_more))
      ]

  release-Fits : (s : DcSender) (n : ℕ) → Fits s → Fits (release s n)
  unfolding release
  release-Fits s n h =
      elim (Bool-cases (
        ltb buffered_amount_low_threshold s.buffered_amount
        && leb (s.buffered_amount - n) buffered_amount_low_threshold)) [
          | inl e ↦ simp (e) (ground (arith, e, limit-least m s.send_loop true))
          | inr e ↦ simp (e) (omega (arith, h))
        ]

  Step-Fits : (s t : DcSender) → Step s t → All (IsShort m) t.sent → Fits s → Fits t
  unfolding send check release
  Step-Fits s t (sends b l) short h = send-Fits s b l (All-last m s.sent b short).1 h
  Step-Fits s t (checks l) short h = check-Fits s l h
  Step-Fits s t (send_fails l) short h = omega (arith, h, limit-most m s.send_loop s.send_more)
  Step-Fits s t (resumes l more) short h =
      subst (λ x. s.buffered_amount ≤ limit m x true) l
        (subst (λ x. s.buffered_amount ≤ limit m s.send_loop x) more h)
  Step-Fits s t (releases n) short h = release-Fits s n h

  Step-sent : (s t : DcSender) → Step s t → All (IsShort m) t.sent → All (IsShort m) s.sent
  unfolding send check release
  Step-sent s t (sends b l) short = (All-last m s.sent b short).0
  Step-sent s t (checks l) short = short
  Step-sent s t (send_fails l) short = short
  Step-sent s t (resumes l more) short = short
  Step-sent s t (releases n) short = short

  Steps-Fits : (s t : DcSender) → Steps s t → All (IsShort m) t.sent → Fits s → Fits t
  Steps-Fits s t here short h = h
  Steps-Fits s t (later {t = u} steps step) short h =
      Step-Fits u t step short (Steps-Fits s u steps (Step-sent u t step short) h)

-- The loop does not wait for a call that has come already.
abbrev pub IsAwake : DcSender → Type 0
IsAwake s =
    (s.send_loop ≢ waiting)
    ⊎ ((s.send_more ≡ true) ⊎ (buffered_amount_low_threshold < s.buffered_amount))

release-IsAwake : (s : DcSender) (n : ℕ) → IsAwake s → IsAwake (release s n)
unfolding release
release-IsAwake s n (inl l) = inl l
release-IsAwake s n (inr (inl more)) = inr (inl (ground (arith, more)))
release-IsAwake s n (inr (inr above)) =
    elim (Bool-cases (leb (s.buffered_amount - n) buffered_amount_low_threshold)) [
      | inl e ↦ inr (inl (ground (arith, above, e)))
      | inr e ↦ inr (inr (ground (arith, e)))
    ]

Step-IsAwake : (s t : DcSender) → Step s t → IsAwake s → IsAwake t
unfolding send check release
Step-IsAwake s t (sends b l) h = inl (λ e. cc)
Step-IsAwake s t (checks l) h = elim (Bool-cases (ltb max_buffered_amount s.buffered_amount)) [
  | inl e ↦ inr (inr (ground (arith, e)))
  | inr e ↦ inl (λ w. cc (simp (e) at w))
]
Step-IsAwake s t (send_fails l) h = inl (λ e. cc)
Step-IsAwake s t (resumes l more) h = inl (λ e. cc)
Step-IsAwake s t (releases n) h = release-IsAwake s n h

Steps-IsAwake : (s t : DcSender) → Steps s t → IsAwake s → IsAwake t
Steps-IsAwake s t here h = h
Steps-IsAwake s t (later {t = u} steps step) h = Step-IsAwake u t step (Steps-IsAwake s u steps h)

-- Whatever the order of the writes, of the releases and of the steps of the loop: if no message that was sent
-- has more than `m` bytes, the buffered amount is never more than `maxBufferedAmount` and two messages; and
-- when the loop waits, either it may go on or the buffer has yet to fall to the threshold.
pub Steps-buffered_amount :
    (m : ℕ) (s : DcSender)
    → Steps new_dc_sender s
    → All (λ b. length b ≤ m) s.sent
    → (s.buffered_amount ≤ max_buffered_amount + 2 * m)
      × ((s.send_loop ≢ waiting)
          ⊎ ((s.send_more ≡ true) ⊎ (buffered_amount_low_threshold < s.buffered_amount)))
Steps-buffered_amount m s steps short = (
  omega (
    arith,
    Steps-Fits m new_dc_sender s steps short (omega arith),
    limit-most m s.send_loop s.send_more,
  ),
  Steps-IsAwake new_dc_sender s steps (inl (λ e. cc)),
)
