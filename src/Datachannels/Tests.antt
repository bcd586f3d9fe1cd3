-- ===== src/Datachannels/Tests.antt =====
-- Data channels that are known by their numbers alone: caller 0 brings channel 7, caller 1 asks for it,
-- and caller 2 asks for channel 9.
use mrtp.Prelude.{ℕ, zero, suc, ◌≡◌, ◌≢◌, refl, true, false, none}
use mrtp.Datachannels.Transport.{
  register, Caller, other_caller, adding, waiting, received, incoming, sending, delivered,
  Transport, add_data_channel_receiver, on_incoming_data_channel, hand_over, Step, Steps, adds,
  comes, meets, here, later,
}
use mrtp.Datachannels.Transport.Handover.{
  IsFresh, IsStart, Steps-own, on_incoming_data_channel-hand_over, on_incoming_data_channel-blocks,
}

abbrev same : ℕ → ℕ
same n = n

abbrev calls : ℕ → Caller same
calls zero = incoming 7
calls (suc zero) = adding 7
calls (suc (suc zero)) = adding 9
calls (suc (suc (suc n))) = other_caller

abbrev begin : Transport same
begin = record {
  locked = false;
  dc_channels = record { entry = λ id. none; made = 0 };
  callers = calls;
}

calls-IsFresh : (i : ℕ) → IsFresh same (calls i)
calls-IsFresh zero = tt
calls-IsFresh (suc zero) = tt
calls-IsFresh (suc (suc zero)) = tt
calls-IsFresh (suc (suc (suc n))) = tt

nobody_waits : (i ch : ℕ) → calls i ≢ waiting 7 ch
nobody_waits zero ch h = cc
nobody_waits (suc zero) ch h = cc
nobody_waits (suc (suc zero)) ch h = cc
nobody_waits (suc (suc (suc n))) ch h = cc

begin-IsStart : IsStart same begin
begin-IsStart = record { unlocked = refl; empty = λ id. refl; fresh = calls-IsFresh }

abbrev asked : Transport same
asked = add_data_channel_receiver same (add_data_channel_receiver same begin 2 9) 1 7

asked_first : Steps same begin asked
asked_first = later (later here (adds 2 9 refl refl)) (adds 1 7 refl refl)

abbrev met : Transport same
met = hand_over same (on_incoming_data_channel same asked 0 7) 0 1 7 7

Steps-own_example :
    ((i id dc : ℕ) → met.callers i ≡ received id dc → dc ≡ id)
    × ((i j ch ch' dc dc' : ℕ)
        → met.callers i ≡ sending dc ch
        → met.callers j ≡ sending dc' ch'
        → i ≡ j)
    × ((i ch dc : ℕ) → met.callers i ≡ sending dc ch → met.locked ≡ true)
unfolding register
Steps-own_example =
    Steps-own same begin met begin-IsStart
      (later (later asked_first (comes 0 7 refl refl)) (meets 0 1 7 1 7 refl refl))

on_incoming_data_channel-hand_over_example :
    (u : Transport same) × Steps same asked u
    × (u.callers 0 ≡ delivered 7)
    × (u.callers 1 ≡ received 7 7)
    × (u.locked ≡ false)
    × ((k : ℕ) → k ≢ 0 → k ≢ 1 → u.callers k ≡ asked.callers k)
unfolding register
on_incoming_data_channel-hand_over_example =
    on_incoming_data_channel-hand_over same begin asked begin-IsStart asked_first 0 7 refl refl 1 1
      refl

on_incoming_data_channel-blocks_example :
    let u = on_incoming_data_channel same begin 0 7 in
    Steps same begin u
    × ((ch : ℕ) × (u.callers 0 ≡ sending 7 ch))
    × ((v : Transport same) → ¬ Step same u v)
on_incoming_data_channel-blocks_example =
    on_incoming_data_channel-blocks same begin begin begin-IsStart here 0 7 refl refl nobody_waits
