-- ===== src/Bwe.antt =====
-- bwe.go: the two bandwidth estimators behind the interface `BWE`. go-nada and pion's gcc are parameters.
mod Tests
use mrtp.Prelude.{ℕ, ◌+◌, ◌*◌, ◌/◌, Bool, true, List, [], ◌∷◌, ◌==◌}
use mrtp.Prelude.Int.{ℤ, pos, negsuc, to_uint64, to_int64}
use mrtp.Quic.Feedback.{BweCall, on_ack, on_loss, update_rtt, update_ecn_counts, update_target_rate}

-- The constant `ECNCE`.
abbrev pub ecn_ce : ℕ
ecn_ce = 3

-- `nada.Config`.
pub record NadaConfig : Type 0 where
  pub min_rate : ℕ
  pub max_rate : ℕ
  pub start_rate : ℕ
  pub feedback_delta : ℕ
  pub deactivate_q_delay_wrapping : Bool
  pub ref_cong_level : ℕ

-- The calls of both libraries; times and durations are in nanoseconds.
pub record Estimators : Type 1 where
  pub Nada : Type 0
  pub Controller : Type 0
  pub nada_ack : ℕ → ℤ → ℤ → ℕ → Bool → Nada → Nada
  pub nada_loss : ℕ → ℤ → Nada → Nada
  pub nada_rtt : ℤ → Nada → Nada
  pub nada_rate : Nada → Nada × ℕ
  pub gcc_ack : ℕ → ℤ → ℤ → ℤ → Controller → Controller
  pub gcc_loss : Controller → Controller
  pub gcc_feedback : ℤ → ℤ → Controller → Controller × ℤ

-- The interval is a whole number of milliseconds that is not negative.
abbrev pub nada_config : ℕ → ℕ → ℕ → ℕ → NadaConfig
nada_config init_rate min_rate max_rate feedback_interval = record {
  min_rate = min_rate;
  max_rate = max_rate;
  start_rate = init_rate;
  feedback_delta = feedback_interval / 1_000_000;
  deactivate_q_delay_wrapping = true;
  ref_cong_level = 15;
}

abbrev pub times_eight : ℤ → ℤ
times_eight (pos n) = pos (8 * n)
times_eight (negsuc n) = negsuc (8 * n + 7)

module _ (E : Estimators) where
  open E use {
    Nada, Controller, nada_ack, nada_loss, nada_rtt, nada_rate, gcc_ack, gcc_loss, gcc_feedback,
  }

  -- A call of the adapter `Nada`, with the rate that it returned last.
  unfoldable pub call_nada : BweCall → Nada × ℤ → Nada × ℤ
  call_nada (on_ack seq_nr size departure arrival ecn) (n, rate) =
      (nada_ack seq_nr departure arrival (to_uint64 (times_eight size)) (ecn == ecn_ce) n, rate)
  call_nada (on_loss seq_nr size departure) (n, rate) = (nada_loss seq_nr departure n, rate)
  call_nada (update_ecn_counts ect0 ect1 ce) (n, rate) = (n, rate)
  call_nada (update_rtt rtt) (n, rate) = (nada_rtt rtt n, rate)
  call_nada (update_target_rate now) (n, rate) = (let (n', r) = nada_rate n in (n', to_int64 r))

  pub record Gcc : Type 0 where
    pub controller : Controller
    pub last_rtt : ℤ

  -- A call of the adapter `GCC`.
  unfoldable pub call_gcc : BweCall → Gcc × ℤ → Gcc × ℤ
  call_gcc (on_ack seq_nr size departure arrival ecn) (g, rate) =
      (record g { controller = gcc_ack seq_nr size departure arrival g.controller }, rate)
  call_gcc (on_loss seq_nr size departure) (g, rate) =
      (record g { controller = gcc_loss g.controller }, rate)
  call_gcc (update_ecn_counts ect0 ect1 ce) (g, rate) = (g, rate)
  call_gcc (update_rtt rtt) (g, rate) = (record g { last_rtt = rtt }, rate)
  call_gcc (update_target_rate now) (g, rate) =
      (let (c, r) = gcc_feedback now g.last_rtt g.controller in (record g { controller = c }, r))

  unfoldable pub nada_target_rate : Nada × ℤ → List BweCall → ℤ
  nada_target_rate (n, rate) [] = rate
  nada_target_rate (n, rate) (c ∷ cs) = nada_target_rate (call_nada c (n, rate)) cs

  unfoldable pub gcc_target_rate : Gcc × ℤ → List BweCall → ℤ
  gcc_target_rate (g, rate) [] = rate
  gcc_target_rate (g, rate) (c ∷ cs) = gcc_target_rate (call_gcc c (g, rate)) cs
