-- ===== src/Moq/Transport.antt =====
-- moq/transport.go, moq/namespace.go and moq/local_track.go: tracks by namespace and name, and their
-- subscribers. Strings are lists of bytes. A track is known by a number in place of its pointer. The
-- publishers are moqtransport's; the calls of them are kept in order.
pub mod Tracks
use mrtp.Prelude.{
  ℕ, zero, suc, ◌+◌, List, [], ◌∷◌, ◌++◌, map, Bool, true, false, ◌&&◌, Option, none, some, ◌==◌,
  if◌then◌else◌,
}

abbrev pub String : Type 0
String = List ℕ

unfoldable pub eq_string : String → String → Bool
eq_string [] [] = true
eq_string [] (y ∷ ys) = false
eq_string (x ∷ xs) [] = false
eq_string (x ∷ xs) (y ∷ ys) = x == y && eq_string xs ys

-- `strings.Join(namespace, "")`.
unfoldable pub join : List String → String
join [] = []
join (s ∷ ss) = s ++ join ss

-- A map with strings for keys.
module _ {A : Type 0} where
  unfoldable pub find : String → List (String × A) → Option A
  find key [] = none
  find key (e ∷ es) = if eq_string e.0 key then some e.1 else find key es

  unfoldable pub put : String → A → List (String × A) → List (String × A)
  put key a [] = (key, a) ∷ []
  put key a (e ∷ es) = if eq_string e.0 key then (key, a) ∷ es else e ∷ put key a es

module _ (Publisher : Type 0) where
  pub data Call : Type 0 where
    open_subgroup : Publisher → Call
    write_object : Publisher → List ℕ → Call
    close_with_error : Publisher → Call
    accept : Publisher → Call
    reject : Publisher → Call

  pub record LocalTrack : Type 0 where
    pub next_id : ℕ
    pub subscribers : List (ℕ × Publisher)
    pub closed : Bool

  abbrev pub new_local_track : LocalTrack
  new_local_track = record { next_id = 0; subscribers = []; closed = false }

  -- `LocalTrack.subscribe`.
  abbrev pub subscribe_track : LocalTrack → Publisher → LocalTrack
  subscribe_track t p = record t {
    next_id = t.next_id + 1;
    subscribers = t.subscribers ++ (t.next_id, p) ∷ [];
  }

  abbrev pub Namespace : Type 0
  Namespace = List (String × ℕ)

  pub record Transport : Type 0 where
    pub namespaces : List (String × Namespace)
    pub tracks : ℕ → LocalTrack
    pub calls : List Call

  -- `namespace.addTrack`; `none` is the error for a duplicate track.
  unfoldable pub add_track_to : Namespace → String → ℕ → Option Namespace
  add_track_to n name track = elim (find name n) [
    | none ↦ some (put name track n)
    | some old ↦ none
  ]

  unfoldable pub namespace_of : Transport → String → Namespace
  namespace_of t key = elim (find key t.namespaces) [ none ↦ [] | some n ↦ n ]

  -- `AddTrack`; `false` is its error. A namespace that is not there is made first.
  unfoldable pub add_track : Transport → List String → String → ℕ → Transport × Bool
  add_track t namespace name track =
      let key = join namespace in
      let n = namespace_of t key in
      elim (add_track_to n name track) [
        | none ↦ (record t { namespaces = put key n t.namespaces }, false)
        | some n' ↦ (record t { namespaces = put key n' t.namespaces }, true)
      ]

  abbrev pub set_track : (ℕ → LocalTrack) → ℕ → LocalTrack → ℕ → LocalTrack
  set_track tracks k t j = if k == j then t else tracks j

  pub data Outcome : Type 0 where
    handled : Transport → Outcome
    -- the nil track is used
    panicked : Outcome

  -- `handleSubscription`. Neither of its later tests can fail: `t` is never nil, and `ok` is true.
  unfoldable pub handle_subscription : Transport → List String → String → Publisher → Outcome
  handle_subscription t namespace name p = elim (find (join namespace) t.namespaces) [
    | none ↦ handled (record t { calls = t.calls ++ reject p ∷ [] })
    | some n ↦ elim (find name n) [
      | none ↦ panicked
      | some k ↦ handled (record t {
        tracks = set_track t.tracks k (subscribe_track (t.tracks k) p);
        calls = t.calls ++ accept p ∷ [];
      })
    ]
  ]

  -- `opens` is whether `OpenSubgroup` succeeds, after the calls that were made before.
  module _ (opens : List Call → Publisher → Bool) where
    -- The loop of `Write`, in one order of the map; the error of `WriteObject` is dropped.
    unfoldable pub write_to : List (ℕ × Publisher) → List ℕ → List Call → List Call
    write_to [] bytes calls = calls
    write_to (e ∷ es) bytes calls =
        let opened = calls ++ open_subgroup e.1 ∷ [] in
        write_to es bytes
          (if opens calls e.1 then opened ++ write_object e.1 bytes ∷ [] else opened)

    -- `LocalTrack.Write`: the count that it returns, or `none` for the error on a closed track.
    unfoldable pub write : Transport → ℕ → List ℕ → Transport × Option ℕ
    write t k bytes =
        if (t.tracks k).closed
        then (t, none)
        else (record t { calls = write_to (t.tracks k).subscribers bytes t.calls }, some 0)

  -- `LocalTrack.Close`.
  unfoldable pub close_track : Transport → ℕ → Transport
  close_track t k = record t {
    tracks = set_track t.tracks k (record (t.tracks k) { closed = true });
    calls = t.calls ++ map (λ e. close_with_error e.1) (t.tracks k).subscribers;
  }
