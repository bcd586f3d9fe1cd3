-- ===== src/Pubsub/Channel/Subscriptions.antt =====
-- How often a subscriber is in the map of a topic, through each operation of internal/pubsub.
use mrtp.Prelude.{
  ℕ, ◌+◌, ◌≤◌, ◌≡◌, refl, ◌∙◌, List, [], ◌∷◌, ◌++◌, Option, none, some, Option-cases, Bool-cases,
  inl, inr, arith,
}
use mrtp.Pubsub.Channel.{
  Queue, Subscriber, Stream, Channel, new_stream, find_stream, set_stream, set_subscriber, announce,
  publish, publish_to, receive, fan_out_to, fan_out, subscribe_to, subscribe, unsubscribe,
  delete_id, next,
}
use mrtp.Pubsub.Channel.Delivery.{times, receive_lem, find_stream-name, find_stream-set_stream}

times-append : (i : ℕ) (xs ys : List (ℕ × ℕ)) → times i (xs ++ ys) ≡ times i xs + times i ys
unfolding times
times-append i [] ys = omega arith
times-append i (x ∷ xs) ys = ground (arith, times-append i xs ys)

times-delete_id :
    (Message : Type 0) (i id : ℕ) (es : List (ℕ × ℕ))
    → times i (delete_id Message id es) ≤ times i es
unfolding times delete_id
times-delete_id Message i id [] = omega arith
times-delete_id Message i id (e ∷ es) = ground (arith, times-delete_id Message i id es)

module _ {Message : Type 0} where
  abbrev pub held : Option (Queue Message) → ℕ
  held none = 0
  held (some q) = 1

  abbrev pub times_in : ℕ → Option (Stream Message) → ℕ
  times_in i none = 0
  times_in i (some s) = times i s.subscribers

  pub record Inv (c : Channel Message) : Type 0 where
    pub once :
        (name i : ℕ) → times_in i (find_stream Message name c.streams) ≤ held (c.subscribers i name)

  pub held-fan_out_to :
      (es : List (ℕ × ℕ)) (name : ℕ) (m : Message) (subs : ℕ → Subscriber Message) (i other : ℕ)
      → held (fan_out_to Message es name m subs i other) ≡ held (subs i other)
  unfolding fan_out_to
  held-fan_out_to [] name m subs i other = refl
  held-fan_out_to (e ∷ es) name m subs i other =
      held-fan_out_to es name m
        (set_subscriber Message subs e.1 (receive Message (subs e.1) name m).0) i other
      ∙ ground (arith, receive_lem (subs e.1) name other m)

  -- A stream that replaces one of its name, with no more subscribers.
  set_stream-Inv :
      (name : ℕ) (ss : List (Stream Message)) (t : Stream Message) {s : Stream Message}
      → find_stream Message name ss ≡ some s
      → t.name ≡ name
      → ((i : ℕ) → times i t.subscribers ≤ times i s.subscribers)
      → (other i : ℕ)
      → times_in i (find_stream Message other (set_stream Message t ss))
        ≤ times_in i (find_stream Message other ss)
  set_stream-Inv name ss t {s} found n less other i =
      ground (arith, find_stream-set_stream name ss t {s = s} found n other, found, less i)

  find_stream-announce :
      (name other : ℕ) (ss : List (Stream Message)) (i : ℕ)
      → times_in i (find_stream Message other (ss ++ new_stream Message name ∷ []))
        ≡ times_in i (find_stream Message other ss)
  unfolding find_stream times
  find_stream-announce name other [] i = ground arith
  find_stream-announce name other (s ∷ ss) i = ground (arith, find_stream-announce name other ss i)

  pub announce-Inv : (c : Channel Message) (name : ℕ) → Inv c → Inv (announce Message c name).0
  unfolding announce
  announce-Inv c name v = elim (Option-cases (find_stream Message name c.streams)) [
    | inl e ↦ elim (Bool-cases c.closed) [
      | inl x ↦ simp (announce, e, x) v
      | inr x ↦
          simp (announce, e, x)
            (record {
              once = λ other i.
                  omega (arith, v.once other i, find_stream-announce name other c.streams i);
            })
    ]
    | inr (s, e) ↦ simp (announce, e) v
  ]

  pub publish-Inv :
      (c : Channel Message) (name : ℕ) (m : Message) → Inv c → Inv (publish Message c name m).0
  unfolding publish publish_to
  publish-Inv c name m v = elim (Option-cases (find_stream Message name c.streams)) [
    | inl e ↦ simp (publish, e) v
    | inr (s, e) ↦
        let n = find_stream-name name c.streams {s = s} e in
        simp (publish, e)
          (record {
            once = λ other i. omega (
              arith,
              v.once other i,
              set_stream-Inv name c.streams (publish_to Message s m).0 {s = s} e (ground (arith, n))
                  (λ k. ground arith) other i,
            );
          })
  ]

  pub fan_out-Inv :
      (c : Channel Message) (s : Stream Message)
      → find_stream Message s.name c.streams ≡ some s
      → Inv c
      → Inv (fan_out Message c s)
  unfolding fan_out
  fan_out-Inv c s found v = elim (Option-cases s.in_hand) [
    | inl e ↦ simp (fan_out, e) v
    | inr (m, e) ↦
        simp (fan_out, e)
          (record {
            once = λ other i. omega (
              arith,
              v.once other i,
              held-fan_out_to s.subscribers s.name m c.subscribers i other,
              set_stream-Inv s.name c.streams (record s { in_hand = none }) {s = s} found refl
                  (λ k. omega arith) other i,
            );
          })
  ]

  pub subscribe-Inv :
      (c : Channel Message) (i name queue_size : ℕ)
      → Inv c
      → Inv (subscribe Message c i name queue_size).0
  unfolding subscribe times
  subscribe-Inv c i name queue_size v = elim (Option-cases (c.subscribers i name)) [
    | inr (q, e) ↦ simp (subscribe, e) v
    | inl e ↦ elim (Option-cases (find_stream Message name c.streams)) [
      | inl x ↦
          simp (subscribe, e, x) (record { once = λ other j. ground (arith, v.once other j, e) })
      | inr (s, x) ↦
          simp (subscribe, e, x)
            (record {
              once = λ other j. ground (
                arith,
                v.once other j,
                v.once name j,
                e,
                x,
                times-append j s.subscribers ((s.next_subscriber_id, i) ∷ []),
                find_stream-set_stream name c.streams (subscribe_to Message s i) {s = s} x
                    (find_stream-name name c.streams {s = s} x) other,
              );
            })
    ]
  ]

  pub unsubscribe-Inv :
      (c : Channel Message) (name id : ℕ) → Inv c → Inv (unsubscribe Message c name id).0
  unfolding unsubscribe
  unsubscribe-Inv c name id v = elim (Option-cases (find_stream Message name c.streams)) [
    | inl e ↦ simp (unsubscribe, e) v
    | inr (s, e) ↦
        let n = find_stream-name name c.streams {s = s} e in
        simp (unsubscribe, e)
          (record {
            once = λ other i. omega (
              arith,
              v.once other i,
              set_stream-Inv name c.streams
                  (record s { subscribers = delete_id Message id s.subscribers }) {s = s} e n
                  (λ k. times-delete_id Message k id s.subscribers) other i,
            );
          })
  ]

  pub next-Inv : (c : Channel Message) (i name : ℕ) → Inv c → Inv (next Message c i name).0
  unfolding next
  next-Inv c i name v = elim (Option-cases (c.subscribers i name)) [
    | inl e ↦ simp (next, e) v
    | inr (q, e) ↦ go q e q.messages refl
  ]
    where
      go :
          (q : Queue Message)
          → c.subscribers i name ≡ some q
          → (ms : List Message) → q.messages ≡ ms
          → Inv (next Message c i name).0
      go q e [] x = simp (next, e, x) v
      go q e (m ∷ ms) x =
          simp (next, e, x) (record { once = λ other j. ground (arith, v.once other j, e) })
