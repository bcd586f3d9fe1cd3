-- ===== src/Webrtc/DcSender/Tests.antt =====
-- A concrete run of webrtc/dc_sender.go.
use mrtp.Prelude.{◌+◌, ◌*◌, ◌≤◌, ◌≡◌, ◌≢◌, ◌⊎◌, ◌<◌, true, refl, [], ◌∷◌, arith}
use mrtp.Webrtc.DcSender.{
  max_buffered_amount, buffered_amount_low_threshold, DcSender, waiting, new_dc_sender, send, check,
  release, Steps, here, later, sends, checks, releases,
}
use mrtp.Webrtc.DcSender.Bound.{Steps-buffered_amount}

abbrev sent_three : DcSender
sent_three = release (check (send new_dc_sender (1 ∷ 2 ∷ 3 ∷ []))) 2

to_sent_three : Steps new_dc_sender sent_three
unfolding send check release
to_sent_three = later (later (later here (sends (1 ∷ 2 ∷ 3 ∷ []) refl)) (checks refl)) (releases 2)

Steps-buffered_amount_example :
    (sent_three.buffered_amount ≤ max_buffered_amount + 2 * 3)
    × ((sent_three.send_loop ≢ waiting)
        ⊎ ((sent_three.send_more ≡ true)
            ⊎ (buffered_amount_low_threshold < sent_three.buffered_amount)))
unfolding send check release
Steps-buffered_amount_example = Steps-buffered_amount 3 sent_three to_sent_three (omega arith, tt)
