-- ===== src/Moq/Transport/Tracks.antt =====
-- Subscriptions to added tracks, and writes to a track: moq/transport.go and moq/local_track.go.
use mrtp.Prelude.{
  ℕ, ◌≡◌, ◌≢◌, refl, sym, ◌∙◌, append-nil, List, [], ◌∷◌, ◌++◌, append_assoc, Bool, true, none,
  some, Option-cases, Bool-cases, inl, inr, if◌then◌else◌, arith,
}
use mrtp.Moq.Transport.{
  String, eq_string, join, find, put, Call, open_subgroup, write_object, accept, subscribe_track,
  Namespace, Transport, add_track_to, namespace_of, add_track, set_track, handled,
  handle_subscription, write_to, write,
}

eq_string_refl : (s : String) → eq_string s s ≡ true
unfolding eq_string
eq_string_refl [] = refl
eq_string_refl (x ∷ xs) = ground (arith, eq_string_refl xs)

find-put :
    {A : Type 0} (key : String) (a : A) (es : List (String × A)) → find key (put key a es) ≡ some a
unfolding find put
find-put key a [] = ground (arith, eq_string_refl key)
find-put key a (e ∷ es) = ground (arith, eq_string_refl key, find-put key a es)

module _ {Publisher : Type 0} where
  added_to : Transport Publisher → List String → String → ℕ → Transport Publisher
  added_to t namespace name k = record t {
    namespaces =
        put (join namespace) (put name k (namespace_of Publisher t (join namespace))) t.namespaces;
  }

  add_track_ok :
      (t : Transport Publisher) (namespace : List String) (name : String) (k : ℕ)
      → find name (namespace_of Publisher t (join namespace)) ≡ none
      → add_track Publisher t namespace name k ≡ (added_to t namespace name k, true)
  unfolding add_track add_track_to added_to
  add_track_ok t namespace name k fresh = rw (add_track, add_track_to, fresh)

  handle_found :
      (t : Transport Publisher) (namespace : List String) (name : String) (p : Publisher)
      {n : Namespace Publisher} {k : ℕ}
      → find (join namespace) t.namespaces ≡ some n
      → find name n ≡ some k
      → handle_subscription Publisher t namespace name p
        ≡ handled (record t {
          tracks = set_track Publisher t.tracks k (subscribe_track Publisher (t.tracks k) p);
          calls = t.calls ++ accept p ∷ [];
        })
  unfolding handle_subscription
  handle_found t namespace name p known there = rw (handle_subscription, known, there)

  add_track_refused :
      (t : Transport Publisher) (namespace : List String) (name : String) (k : ℕ) {old : ℕ}
      → find name (namespace_of Publisher t (join namespace)) ≡ some old
      → (add_track Publisher t namespace name k).1 ≢ true
  unfolding add_track add_track_to
  add_track_refused t namespace name k e added = cc (simp (add_track, add_track_to, e) at added)

  -- Where a track is added without an error, a subscription right after that names it and its namespace,
  -- or any namespace whose parts join to the same bytes, is accepted, and the publisher is a new
  -- subscriber of that track.
  pub add_track-handle_subscription :
      (t : Transport Publisher) (namespace other : List String) (name : String) (k : ℕ)
      (p : Publisher)
      → (add_track Publisher t namespace name k).1 ≡ true
      → join other ≡ join namespace
      → let u = (add_track Publisher t namespace name k).0 in
        handle_subscription Publisher u other name p
        ≡ handled (record u {
          tracks = set_track Publisher t.tracks k (subscribe_track Publisher (t.tracks k) p);
          calls = t.calls ++ accept p ∷ [];
        })
  unfolding added_to
  add_track-handle_subscription t namespace other name k p added same =
      let n = namespace_of Publisher t (join namespace) in
      elim (Option-cases (find name n)) [
        | inr (old, e) ↦ absurd (add_track_refused t namespace name k e added)
        | inl e ↦ rw (add_track_ok t namespace name k e) (
            handle_found (added_to t namespace name k) other name p {n = put name k n} {k = k}
              (rw same (find-put (join namespace) (put name k n) t.namespaces)) (find-put name k n))
      ]

  -- What a subscriber should get: a subgroup, and the object in it.
  abbrev pub deliveries : (Publisher → Bool) → List (ℕ × Publisher) → List ℕ → List (Call Publisher)
  deliveries good [] bytes = []
  deliveries good (e ∷ es) bytes =
      (open_subgroup e.1 ∷ (if good e.1 then write_object e.1 bytes ∷ [] else []))
      ++ deliveries good es bytes

  module _ (opens : List (Call Publisher) → Publisher → Bool) (good : Publisher → Bool)
      (depends : (cs : List (Call Publisher)) (p : Publisher) → opens cs p ≡ good p) where
    write_to_lem :
        (es : List (ℕ × Publisher)) (bytes : List ℕ) (calls : List (Call Publisher))
        → write_to Publisher opens es bytes calls ≡ calls ++ deliveries good es bytes
    unfolding write_to
    write_to_lem [] bytes calls = sym (append-nil calls)
    write_to_lem (e ∷ es) bytes calls = elim (Bool-cases (good e.1)) [
      | inl x ↦
          rw (depends calls e.1, x)
            (write_to_lem es bytes
                ((calls ++ open_subgroup e.1 ∷ []) ++ write_object e.1 bytes ∷ [])
              ∙ rw (append_assoc, append_assoc))
      | inr x ↦
          rw (depends calls e.1, x)
            (write_to_lem es bytes (calls ++ open_subgroup e.1 ∷ []) ∙ rw append_assoc)
    ]

    -- Where it depends on the publisher alone whether a subgroup is opened, a write to a track that is
    -- not closed opens a subgroup with each subscriber in turn and writes the bytes in each that was
    -- opened, whatever became of the others, and returns a count of 0. On a closed track it fails
    -- and changes nothing.
    write_lem :
        (t : Transport Publisher) (k : ℕ) (bytes : List ℕ)
        → write Publisher opens t k bytes ≡ (
            if (t.tracks k).closed then (t, none) else (
              record t { calls = t.calls ++ deliveries good (t.tracks k).subscribers bytes },
              some 0,
            ))
    unfolding write
    write_lem t k bytes = rw (write_to_lem (t.tracks k).subscribers bytes t.calls) refl
