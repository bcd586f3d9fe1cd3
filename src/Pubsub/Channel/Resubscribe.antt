-- ===== src/Pubsub/Channel/Resubscribe.antt =====
-- `Subscribe` after the end of a subscription: internal/pubsub/subscriber.go.
use mrtp.Prelude.{ℕ, ◌≤◌, ◌≡◌, refl, ap, ◌∙◌, List, [], ◌∷◌, ◌++◌, none, some, arith}
use mrtp.Pubsub.Channel.{
  Queue, Stream, Channel, find_stream, set_stream, subscribe_to, subscribe, unsubscribe, delete_id,
  with_queue, duplicate_subscription,
}
use mrtp.Pubsub.Channel.Delivery.{times, find_stream-name, find_stream-set_stream}
use mrtp.Pubsub.Channel.Subscriptions.{times_in}
use mrtp.Pubsub.Channel.Reach.{Reach, Reach-Inv}

times-deleted :
    (Message : Type 0) (i id : ℕ) (es : List (ℕ × ℕ))
    → times i es ≤ 0
    → times i (delete_id Message id (es ++ (id, i) ∷ [])) ≡ 0
unfolding times delete_id
times-deleted Message i id [] h = ground arith
times-deleted Message i id (e ∷ es) h = ground (arith, times-deleted Message i id es)

module _ {Message : Type 0} where
  abbrev after_subscribe : Channel Message → ℕ → ℕ → ℕ → Stream Message → Channel Message
  after_subscribe c i name size s =
      record (with_queue Message c i name (some (record { size = size; messages = [] }))) {
        streams = set_stream Message (subscribe_to Message s i) c.streams;
      }

  subscribe_ok :
      (c : Channel Message) (i name size : ℕ) {s : Stream Message}
      → c.subscribers i name ≡ none
      → find_stream Message name c.streams ≡ some s
      → subscribe Message c i name size
        ≡ (after_subscribe c i name size s, (some s.next_subscriber_id, none))
  unfolding subscribe
  subscribe_ok c i name size empty found = rw (subscribe, empty, found)

  unsubscribe_ok :
      (c : Channel Message) (name id : ℕ) {s : Stream Message}
      → find_stream Message name c.streams ≡ some s
      → unsubscribe Message c name id ≡ (
        record c {
          streams =
              set_stream Message
                (record s { subscribers = delete_id Message id s.subscribers })
                c.streams;
        },
        none,
      )
  unfolding unsubscribe
  unsubscribe_ok c name id found = rw (unsubscribe, found)

  subscribe_duplicate :
      (c : Channel Message) (i name size : ℕ) {q : Queue Message}
      → c.subscribers i name ≡ some q
      → subscribe Message c i name size ≡ (c, (none, some duplicate_subscription))
  unfolding subscribe
  subscribe_duplicate c i name size known = rw (subscribe, known)

  -- In every state of a channel that calls lead to, a subscriber that has no queue for a known topic can
  -- subscribe to it. When it unsubscribes right after, with the id it got, it is no longer in the map
  -- of the topic, and to subscribe again is refused as a duplicate: it still has the queue.
  pub subscribe-unsubscribe :
      (c : Channel Message) (i name size size' : ℕ) {s : Stream Message}
      → Reach c
      → c.subscribers i name ≡ none
      → find_stream Message name c.streams ≡ some s
      → let (d, (id, e)) = subscribe Message c i name size in
        let f = (unsubscribe Message d name s.next_subscriber_id).0 in
        (e ≡ none)
        × (id ≡ some s.next_subscriber_id)
        × (times_in i (find_stream Message name f.streams) ≡ 0)
        × (subscribe Message f i name size' ≡ (f, (none, some duplicate_subscription)))
  subscribe-unsubscribe c i name size size' {s} reach empty found =
      let n = find_stream-name name c.streams {s = s} found in
      let joined = subscribe_to Message s i in
      let left = record joined {
        subscribers = delete_id Message s.next_subscriber_id joined.subscribers;
      } in
      let d = after_subscribe c i name size s in
      let first : find_stream Message name d.streams ≡ some joined =
        ground (arith, find_stream-set_stream name c.streams joined {s = s} found n name) in
      let f = record d { streams = set_stream Message left d.streams } in
      let second : find_stream Message name f.streams ≡ some left =
        ground (arith, find_stream-set_stream name d.streams left {s = joined} first n name) in
      let none_before : times i s.subscribers ≤ 0 =
        ground (arith, (Reach-Inv c reach).once name i, empty, found) in
      let gone = times-deleted Message i s.next_subscriber_id s.subscribers none_before in
      let kept : f.subscribers i name ≡ some (record { size = size; messages = [] }) =
        ground arith in
      rw
        (
          subscribe_ok c i name size {s = s} empty found,
          unsubscribe_ok d name s.next_subscriber_id {s = joined} first,
        )
        (refl, refl, ap (times_in i) second ∙ gone, subscribe_duplicate f i name size' kept)
