-- ===== src/Datachannels/Wrappers.antt =====
-- datachannels/sender.go and datachannels/receiver.go: one message of quicdc for all writes and one for all reads,
-- opened by the first. quicdc is a parameter.
use mrtp.Prelude.{ℕ, List, [], Bool, false, Option, none, some}

-- The calls on a data channel and its messages; `none` and `false` are errors.
pub record DataChannel (W : Type 0) : Type 0 where
  pub send_message : W → W × Option ℕ
  pub receive_message : W → W × Option ℕ
  pub write_message : ℕ → List ℕ → W → W × (ℕ × Bool)
  pub read_message : ℕ → ℕ → W → W × (List ℕ × Bool)
  pub close_message : ℕ → W → W × Bool

-- How a `Close` ends: with or without an error, or on a message that is nil.
pub data Closed : Type 0 where
  closed : Bool → Closed
  nil_message : Closed

module _ {W : Type 0} (dc : DataChannel W) where
  open dc use {send_message, receive_message, write_message, read_message, close_message}

  -- The message `mw` of a `Sender`, and what `Write` returns.
  unfoldable pub write_data : Option ℕ → List ℕ → W → (Option ℕ × W) × (ℕ × Bool)
  write_data (some m) b w = (let (w', r) = write_message m b w in ((some m, w'), r))
  write_data none b w =
      let (w1, o) = send_message w in
      elim o [
        | none ↦ ((none, w1), (0, false))
        | some m ↦ let (w2, r) = write_message m b w1 in ((some m, w2), r)
      ]

  -- The message `rm` of a `Receiver`, and what `Read` of a buffer of `n` bytes gives.
  unfoldable pub read_data : Option ℕ → ℕ → W → (Option ℕ × W) × (List ℕ × Bool)
  read_data (some m) n w = (let (w', r) = read_message m n w in ((some m, w'), r))
  read_data none n w =
      let (w1, o) = receive_message w in
      elim o [
        | none ↦ ((none, w1), ([], false))
        | some m ↦ let (w2, r) = read_message m n w1 in ((some m, w2), r)
      ]

  -- `Close` of either.
  unfoldable pub close_data : Option ℕ → W → W × Closed
  close_data none w = (w, nil_message)
  close_data (some m) w = (let (w', ok) = close_message m w in (w', closed ok))
