-- ===== src/Webrtc/DcSender.antt =====
-- webrtc/dc_sender.go: the sender that keeps the buffer of a data channel small. Its callers, its loop, and the
-- data channel, which releases what it has sent out and then calls `OnBufferedAmountLow`, take steps in any order.
pub mod Bound
mod Tests
use mrtp.Prelude.{
  ℕ, ◌+◌, ◌*◌, ◌-◌, ◌≤◌, ◌<◌, ◌≡◌, List, [], ◌∷◌, ◌++◌, Bool, true, false, ltb, leb, ◌&&◌, length,
  if◌then◌else◌,
}

abbrev pub buffered_amount_low_threshold : ℕ
buffered_amount_low_threshold = 512 * 1024

abbrev pub max_buffered_amount : ℕ
max_buffered_amount = 1024 * 1024

-- `sendLoop` takes the next data, has sent it and looks at the buffered amount, waits for `sendMore`, or has
-- returned with an error of `Send`.
pub data SendLoop : Type 0 where
  taking : SendLoop
  checking : SendLoop
  waiting : SendLoop
  failed : SendLoop

-- `send_more` says whether the channel of that name has its one entry; `sent` is what `Send` was given.
pub record DcSender : Type 0 where
  pub send_loop : SendLoop
  pub send_more : Bool
  pub buffered_amount : ℕ
  pub sent : List (List ℕ)

abbrev pub new_dc_sender : DcSender
new_dc_sender = record { send_loop = taking; send_more = false; buffered_amount = 0; sent = [] }

-- `Write` of `b` meets the loop, which sends it.
unfoldable pub send : DcSender → List ℕ → DcSender
send s b = record s {
  send_loop = checking;
  buffered_amount = s.buffered_amount + length b;
  sent = s.sent ++ b ∷ [];
}

-- The look at the buffered amount.
unfoldable pub check : DcSender → DcSender
check s = record s {
  send_loop = if ltb max_buffered_amount s.buffered_amount then waiting else taking;
}

-- The data channel has sent out `n` bytes more; falling to the threshold puts an entry into `sendMore`.
unfoldable pub release : DcSender → ℕ → DcSender
release s n =
    let amount = s.buffered_amount - n in
    record s {
      send_more =
          if ltb buffered_amount_low_threshold s.buffered_amount
            && leb amount buffered_amount_low_threshold
          then true
          else s.send_more;
      buffered_amount = amount;
    }

pub data Step : DcSender → DcSender → Type 0 where
  sends : {s : DcSender} (b : List ℕ) → s.send_loop ≡ taking → Step s (send s b)
  checks : {s : DcSender} → s.send_loop ≡ checking → Step s (check s)
  send_fails : {s : DcSender} → s.send_loop ≡ taking → Step s (record s { send_loop = failed })
  resumes :
      {s : DcSender}
      → s.send_loop ≡ waiting
      → s.send_more ≡ true
      → Step s (record s { send_loop = taking; send_more = false })
  releases : {s : DcSender} (n : ℕ) → Step s (release s n)

pub data Steps : DcSender → DcSender → Type 0 where
  here : {s : DcSender} → Steps s s
  later : {s t u : DcSender} → Steps s t → Step t u → Steps s u
