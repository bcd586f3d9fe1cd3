-- ===== src/Pubsub/Tests.antt =====
-- A channel with one topic, 5, whose subscriber 2 has a queue for three messages; messages are numbers.
use mrtp.Prelude.{ℕ, ◌≡◌, refl, List, [], ◌∷◌, false, none, some, ◌==◌, ltb, if◌then◌else◌}
use mrtp.Pubsub.Channel.{
  Stream, Channel, new_channel, announce, subscribe, unsubscribe, publish, fan_out, find_stream,
  set_stream, duplicate_subscription,
}
use mrtp.Pubsub.Channel.Delivery.{times, offer}
use mrtp.Pubsub.Channel.Subscriptions.{Inv, times_in}
use mrtp.Pubsub.Channel.Reach.{Reach, start, later, announces, subscribes, Reach-Inv, Reach-fan_out}
use mrtp.Pubsub.Channel.Resubscribe.{subscribe-unsubscribe}

abbrev announced : Channel ℕ
announced = (announce ℕ (new_channel ℕ) 5).0

announced-Reach : Reach announced
announced-Reach = later start (announces 5)

abbrev joined : Channel ℕ
joined = (subscribe ℕ announced 2 5 3).0

joined-Reach : Reach joined
joined-Reach = later announced-Reach (subscribes 2 5 3)

abbrev topic : List (ℕ × ℕ) → ℕ → Stream ℕ
topic subs n = record {
  name = 5;
  next_subscriber_id = n;
  subscribers = subs;
  in_hand = none;
  closed = false;
}

Reach-Inv_example : Inv joined
Reach-Inv_example = Reach-Inv joined joined-Reach

abbrev joined_topic : Stream ℕ
joined_topic = topic ((0, 2) ∷ []) 1

Reach-fan_out_example :
    let (d, e) = publish ℕ joined 5 42 in
    let after = fan_out ℕ d (record joined_topic { in_hand = some 42 }) in
    (e ≡ none)
    × ((i other : ℕ)
        → after.subscribers i other ≡ (
            if 5 == other
            then if ltb 0 (times i ((0, 2) ∷ []))
              then offer 42 (joined.subscribers i other)
              else joined.subscribers i other
            else joined.subscribers i other))
    × ((other : ℕ) → find_stream ℕ other after.streams ≡ find_stream ℕ other joined.streams)
unfolding announce subscribe find_stream set_stream
Reach-fan_out_example = Reach-fan_out joined 5 42 {s = joined_topic} joined-Reach refl refl refl

subscribe-unsubscribe_example :
    let (d, (id, e)) = subscribe ℕ announced 2 5 3 in
    let f = (unsubscribe ℕ d 5 0).0 in
    (e ≡ none)
    × (id ≡ some 0)
    × (times_in 2 (find_stream ℕ 5 f.streams) ≡ 0)
    × (subscribe ℕ f 2 5 4 ≡ (f, (none, some duplicate_subscription)))
unfolding announce find_stream
subscribe-unsubscribe_example =
    subscribe-unsubscribe announced 2 5 3 4 {s = topic [] 0} announced-Reach refl refl
