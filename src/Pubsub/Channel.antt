-- ===== src/Pubsub/Channel.antt =====
-- internal/pubsub: channel.go, stream.go, subscriber.go and publisher.go. Topics are known by numbers
-- in place of strings, subscribers by numbers in place of pointers. Each operation, and each round of
-- a topic's goroutine, is taken as atomic and to end: how the locks wait for each other is left out.
pub mod Delivery
pub mod Subscriptions
pub mod Reach
pub mod Resubscribe
use mrtp.Prelude.{
  ℕ, ◌+◌, List, [], ◌∷◌, ◌++◌, Bool, true, false, Option, none, some, ◌==◌, ltb, length,
  if◌then◌else◌,
}

pub data PubsubError : Type 0 where
  broker_closed : PubsubError
  duplicate_topic : PubsubError
  unknown_topic : PubsubError
  queue_overflow : PubsubError
  unexpected_message : PubsubError
  duplicate_subscription : PubsubError

module _ (Message : Type 0) where
  -- A Go channel with a buffer of `size` messages, the oldest first.
  pub record Queue : Type 0 where
    pub size : ℕ
    pub messages : List Message

  -- `Subscriber.streams`: at most one queue for a topic.
  abbrev pub Subscriber : Type 0
  Subscriber = ℕ → Option Queue

  -- `in_hand` is the message that the goroutine `process` has taken and not yet fanned out; it waits at
  -- its `select` when there is none. `closed` is whether the goroutine has ended.
  pub record Stream : Type 0 where
    pub name : ℕ
    pub next_subscriber_id : ℕ
    pub subscribers : List (ℕ × ℕ)
    pub in_hand : Option Message
    pub closed : Bool

  -- `Channel`, with the subscribers that share it.
  pub record Channel : Type 0 where
    pub streams : List Stream
    pub closed : Bool
    pub subscribers : ℕ → Subscriber

  abbrev pub new_stream : ℕ → Stream
  new_stream name = record {
    name = name;
    next_subscriber_id = 0;
    subscribers = [];
    in_hand = none;
    closed = false;
  }

  abbrev pub new_channel : Channel
  new_channel = record { streams = []; closed = false; subscribers = λ i name. none }

  unfoldable pub find_stream : ℕ → List Stream → Option Stream
  find_stream name [] = none
  find_stream name (s ∷ ss) = if s.name == name then some s else find_stream name ss

  unfoldable pub set_stream : Stream → List Stream → List Stream
  set_stream s [] = []
  set_stream s (t ∷ ts) = if t.name == s.name then s ∷ ts else t ∷ set_stream s ts

  abbrev pub set_subscriber : (ℕ → Subscriber) → ℕ → Subscriber → ℕ → Subscriber
  set_subscriber subs i s j = if i == j then s else subs j

  abbrev pub set_queue : Subscriber → ℕ → Option Queue → Subscriber
  set_queue s name q other = if name == other then q else s other

  unfoldable pub announce : Channel → ℕ → Channel × Option PubsubError
  announce c name = elim (find_stream name c.streams) [
    | none ↦
        if c.closed
        then (c, some broker_closed)
        else (record c { streams = c.streams ++ new_stream name ∷ [] }, none)
    | some s ↦ (c, some (if c.closed then broker_closed else duplicate_topic))
  ]

  -- `stream.publish`: the queue has no buffer, so that the goroutine must wait for the message.
  unfoldable pub publish_to : Stream → Message → Stream × Option PubsubError
  publish_to s m = elim s.in_hand [
    | none ↦ if s.closed then (s, some queue_overflow) else (record s { in_hand = some m }, none)
    | some old ↦ (s, some queue_overflow)
  ]

  unfoldable pub publish : Channel → ℕ → Message → Channel × Option PubsubError
  publish c name m = elim (find_stream name c.streams) [
    | none ↦ (c, some unknown_topic)
    | some s ↦ let (s', e) = publish_to s m in (record c { streams = set_stream s' c.streams }, e)
  ]

  -- `Subscriber.receive`.
  unfoldable pub receive : Subscriber → ℕ → Message → Subscriber × Option PubsubError
  receive s name m = elim (s name) [
    | none ↦ (s, some unexpected_message)
    | some q ↦
        if ltb (length q.messages) q.size
        then (set_queue s name (some (record q { messages = q.messages ++ m ∷ [] })), none)
        else (s, some queue_overflow)
  ]

  -- The loop of `fanout`; its errors are dropped.
  unfoldable pub fan_out_to : List (ℕ × ℕ) → ℕ → Message → (ℕ → Subscriber) → ℕ → Subscriber
  fan_out_to [] name m subs = subs
  fan_out_to (e ∷ es) name m subs =
      fan_out_to es name m (set_subscriber subs e.1 (receive (subs e.1) name m).0)

  -- One round of `process` on the message that it has taken.
  unfoldable pub fan_out : Channel → Stream → Channel
  fan_out c s = elim s.in_hand [
    | none ↦ c
    | some m ↦ record c {
      streams = set_stream (record s { in_hand = none }) c.streams;
      subscribers = fan_out_to s.subscribers s.name m c.subscribers;
    }
  ]

  -- `stream.subscribe`.
  abbrev pub subscribe_to : Stream → ℕ → Stream
  subscribe_to s i = record s {
    next_subscriber_id = s.next_subscriber_id + 1;
    subscribers = s.subscribers ++ (s.next_subscriber_id, i) ∷ [];
  }

  abbrev pub with_queue : Channel → ℕ → ℕ → Option Queue → Channel
  with_queue c i name q = record c {
    subscribers = set_subscriber c.subscribers i (set_queue (c.subscribers i) name q);
  }

  -- `Subscribe` of subscriber `i`, with the id that its iterator keeps.
  unfoldable pub subscribe : Channel → ℕ → ℕ → ℕ → Channel × (Option ℕ × Option PubsubError)
  subscribe c i name queue_size =
      let d = with_queue c i name (some (record { size = queue_size; messages = [] })) in
      elim (c.subscribers i name) [
        | some q ↦ (c, (none, some duplicate_subscription))
        | none ↦ elim (find_stream name c.streams) [
          | none ↦ (with_queue d i name none, (none, some unknown_topic))
          | some s ↦ (
            record d { streams = set_stream (subscribe_to s i) c.streams },
            (some s.next_subscriber_id, none),
          )
        ]
      ]

  unfoldable pub delete_id : ℕ → List (ℕ × ℕ) → List (ℕ × ℕ)
  delete_id id [] = []
  delete_id id (e ∷ es) = if e.0 == id then delete_id id es else e ∷ delete_id id es

  unfoldable pub unsubscribe : Channel → ℕ → ℕ → Channel × Option PubsubError
  unsubscribe c name id = elim (find_stream name c.streams) [
    | none ↦ (c, some unknown_topic)
    | some s ↦ (
      record c {
        streams = set_stream (record s { subscribers = delete_id id s.subscribers }) c.streams;
      },
      none,
    )
  ]

  -- The receive of the iterator that `Subscribe` returns; `none` is to wait.
  unfoldable pub next : Channel → ℕ → ℕ → Channel × Option Message
  next c i name = elim (c.subscribers i name) [
    | none ↦ (c, none)
    | some q ↦ elim q.messages [
      | [] ↦ (c, none)
      | m ∷ (ms → hms) ↦ (with_queue c i name (some (record q { messages = ms })), some m)
    ]
  ]

  -- `Close` of each stream in turn, which ends the goroutine once it has fanned out what it holds;
  -- `none` is the panic of closing a channel twice.
  unfoldable pub close_streams :
      List Stream → (ℕ → Subscriber) → Option (List Stream × (ℕ → Subscriber))
  close_streams [] subs = some ([], subs)
  close_streams (s ∷ ss) subs =
      let subs' : ℕ → Subscriber = elim s.in_hand [
        | none ↦ subs
        | some m ↦ fan_out_to s.subscribers s.name m subs
      ] in
      let rest = close_streams ss subs' in
      if s.closed then none else elim rest [
        | none ↦ none
        | some r ↦ some (record s { in_hand = none; closed = true } ∷ r.0, r.1)
      ]

  unfoldable pub close : Channel → Option Channel
  close c = elim (close_streams c.streams c.subscribers) [
    | none ↦ none
    | some r ↦ some (record c { streams = r.0; subscribers = r.1; closed = true })
  ]
