-- ===== src/Moq/Tests.antt =====
-- One track, 0, with publishers that are numbers, of which 7 opens no subgroup. The namespace is `ab`.
use mrtp.Prelude.{ℕ, ◌≡◌, refl, List, [], ◌∷◌, Bool, false, not, ◌==◌}
use mrtp.Moq.Transport.{
  String, join, find, add_track_to, namespace_of, add_track, accept, new_local_track, set_track,
  Transport, handled, handle_subscription,
}
use mrtp.Moq.Transport.Tracks.{add_track-handle_subscription}

abbrev nothing : Transport ℕ
nothing = record { namespaces = []; tracks = λ k. new_local_track ℕ; calls = [] }

abbrev a_b : List String
a_b = (97 ∷ []) ∷ (98 ∷ []) ∷ []

abbrev video : String
video = 118 ∷ []

add_track-handle_subscription_example :
    let u = (add_track ℕ nothing a_b video 0).0 in
    handle_subscription ℕ u ((97 ∷ 98 ∷ []) ∷ []) video 9
    ≡ handled (record u {
      tracks =
          set_track ℕ nothing.tracks 0
            (record { next_id = 1; subscribers = (0, 9) ∷ []; closed = false });
      calls = accept 9 ∷ [];
    })
unfolding join find add_track add_track_to namespace_of
add_track-handle_subscription_example =
    add_track-handle_subscription nothing a_b ((97 ∷ 98 ∷ []) ∷ []) video 0 9 refl refl

abbrev good : ℕ → Bool
good p = not (p == 7)

abbrev two_subscribers : Transport ℕ
two_subscribers = record nothing {
  tracks = λ k. record { next_id = 2; subscribers = (0, 7) ∷ (1, 9) ∷ []; closed = false };
}
