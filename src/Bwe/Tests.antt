-- ===== src/Bwe/Tests.antt =====
-- The estimators of bwe.go at concrete values.
use mrtp.Prelude.{ℕ, ◌+◌, ◌≡◌, refl, [], ◌∷◌}
use mrtp.Prelude.Int.{pos}
use mrtp.Quic.Feedback.{update_rtt, update_target_rate}
use mrtp.Bwe.{Estimators, call_gcc, gcc_target_rate}

-- The rate of the controller is the round trip time it is given.
abbrev echo : Estimators
echo = record {
  Nada = ℕ;
  Controller = ℕ;
  nada_ack = λ seq_nr departure arrival bits marked n. n + 1;
  nada_loss = λ seq_nr departure n. n;
  nada_rtt = λ rtt n. n;
  nada_rate = λ n. (n, n);
  gcc_ack = λ seq_nr size departure arrival c. c;
  gcc_loss = λ c. c;
  gcc_feedback = λ now rtt c. (c, rtt);
}

latest_rtt :
    gcc_target_rate echo
      (record { controller = 0; last_rtt = pos 0 }, pos 7)
      (update_rtt (pos 5) ∷ update_rtt (pos 6) ∷ update_target_rate (pos 1) ∷ [])
    ≡ pos 6
unfolding gcc_target_rate call_gcc
latest_rtt = refl
