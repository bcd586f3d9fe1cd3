-- ===== src/Pubsub/Channel/Delivery.antt =====
-- One message from `publish` to the queues: internal/pubsub/stream.go and subscriber.go.
use mrtp.Prelude.{
  ℕ, ◌+◌, ◌≤◌, ◌≡◌, refl, List, [], ◌∷◌, ◌++◌, false, Option, none, some, ◌==◌, ltb, length,
  Option-cases, Bool-cases, ap, sym, ◌∙◌, inl, inr, if◌then◌else◌, arith,
}
use mrtp.Pubsub.Channel.{
  Queue, Subscriber, Stream, Channel, find_stream, set_stream, set_subscriber, publish, publish_to,
  receive, fan_out_to, fan_out,
}

-- How often a subscriber is in the map of a stream.
unfoldable pub times : ℕ → List (ℕ × ℕ) → ℕ
times i [] = 0
times i (e ∷ es) = (if e.1 == i then 1 else 0) + times i es

module _ {Message : Type 0} where
  -- A message joins the end of a queue with room, and is dropped otherwise.
  abbrev pub offered : Message → Queue Message → Queue Message
  offered m q =
      if ltb (length q.messages) q.size then record q { messages = q.messages ++ m ∷ [] } else q

  abbrev pub offer : Message → Option (Queue Message) → Option (Queue Message)
  offer m none = none
  offer m (some q) = some (offered m q)

  pub receive_lem :
      (s : Subscriber Message) (name other : ℕ) (m : Message)
      → (receive Message s name m).0 other ≡ (if name == other then offer m (s other) else s other)
  unfolding receive
  receive_lem s name other m = elim (Option-cases (s name)) [
    | inl e ↦ ground (arith, e)
    | inr (q, e) ↦ ground (arith, e)
  ]

  -- The loop offers the message once to each subscriber that is in the map once, for its topic alone.
  fan_out_to_lem :
      (es : List (ℕ × ℕ)) (name : ℕ) (m : Message) (subs : ℕ → Subscriber Message) (i other : ℕ)
      → times i es ≤ 1
      → fan_out_to Message es name m subs i other ≡ (
          if name == other
          then if ltb 0 (times i es) then offer m (subs i other) else subs i other
          else subs i other)
  unfolding fan_out_to times
  fan_out_to_lem [] name m subs i other once = ground arith
  fan_out_to_lem (e ∷ es) name m subs i other once =
      let next = set_subscriber Message subs e.1 (receive Message (subs e.1) name m).0 in
      ground (
        arith,
        fan_out_to_lem es name m next i other (ground arith),
        receive_lem (subs e.1) name other m,
      )

  pub find_stream-name :
      (name : ℕ) (ss : List (Stream Message)) {s : Stream Message}
      → find_stream Message name ss ≡ some s
      → s.name ≡ name
  unfolding find_stream
  find_stream-name name [] h = cc
  find_stream-name name (t ∷ ts) {s} h = ground (arith, find_stream-name name ts {s = s})

  pub find_stream-set_stream :
      (name : ℕ) (ss : List (Stream Message)) (t : Stream Message) {s : Stream Message}
      → find_stream Message name ss ≡ some s
      → t.name ≡ name
      → (other : ℕ)
      → find_stream Message other (set_stream Message t ss)
        ≡ (if name == other then some t else find_stream Message other ss)
  unfolding find_stream set_stream
  find_stream-set_stream name [] t h n other = cc
  find_stream-set_stream name (u ∷ us) t {s} h n other =
      let same : (u.name == t.name) ≡ (u.name == name) = ap (λ x. u.name == x) n in
      elim (Bool-cases (u.name == name)) [
        | inl x ↦ simp (same, x) (ground (arith, x, n))
        | inr x ↦
            simp (same, x)
              (ground
                (arith, x, find_stream-set_stream name us t {s = s} (ground (arith, x)) n other))
      ]

  publish_ok :
      (c : Channel Message) (name : ℕ) (m : Message) {s : Stream Message}
      → find_stream Message name c.streams ≡ some s
      → s.in_hand ≡ none
      → s.closed ≡ false
      → publish Message c name m ≡ (
        record c { streams = set_stream Message (record s { in_hand = some m }) c.streams },
        none,
      )
  unfolding publish publish_to
  publish_ok c name m found free alive = rw (publish, found, publish_to, free, alive)

  -- Where the topic is known, its goroutine runs and waits, and no subscriber is more than once in the
  -- map of the topic, `publish` succeeds, and the round of the goroutine that follows offers the
  -- message once, at the end, to the queue that each subscriber in the map has for the topic, which
  -- takes it if it has room. No other queue changes, and every topic is as it was.
  pub publish-fan_out :
      (c : Channel Message) (name : ℕ) (m : Message) {s : Stream Message}
      → find_stream Message name c.streams ≡ some s
      → s.in_hand ≡ none
      → s.closed ≡ false
      → ((i : ℕ) → times i s.subscribers ≤ 1)
      → let (d, e) = publish Message c name m in
        let after = fan_out Message d (record s { in_hand = some m }) in
        (e ≡ none)
        × ((i other : ℕ)
            → after.subscribers i other ≡ (
                if name == other
                then if ltb 0 (times i s.subscribers)
                  then offer m (c.subscribers i other)
                  else c.subscribers i other
                else c.subscribers i other))
        × ((other : ℕ)
            → find_stream Message other after.streams ≡ find_stream Message other c.streams)
  unfolding fan_out
  publish-fan_out c name m {s} found free alive once =
      let n = find_stream-name name c.streams {s = s} found in
      let held = record s { in_hand = some m } in
      let back : record s { in_hand = none } ≡ s = λ i. record s { in_hand = sym free i } in
      let first = find_stream-set_stream name c.streams held {s = s} found n in
      rw (publish_ok c name m {s = s} found free alive) (
        refl,
        λ i other.
            ground (arith, n, fan_out_to_lem s.subscribers s.name m c.subscribers i other (once i)),
        λ other.
            find_stream-set_stream name (set_stream Message held c.streams)
              (record s { in_hand = none }) {s = held} (ground (arith, first name)) n other
            ∙ ground (arith, back, first other, found),
      )
