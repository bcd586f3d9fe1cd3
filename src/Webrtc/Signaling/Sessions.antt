-- ===== src/Webrtc/Signaling/Sessions.antt =====
-- Whole sessions of signalling in webrtc/transport.go.
use mrtp.Prelude.{
  ◌≡◌, refl, sym, ap, ◌∙◌, All, List, [], ◌∷◌, ◌++◌, append-nil, append_assoc, Bool, true, false,
  none, some, inl, inr, Bool-cases, arith,
}
use mrtp.Webrtc.Signaling.{
  ice_candidate, Peer, Transport, on_negotiation_needed, on_ice_candidate,
  handle_session_description,
}
use mrtp.Webrtc.Signaling.Candidates.{
  Event, negotiate, gathered, described, candidates, all_gathered, run, is_accepted,
  candidates-candidate, on_negotiation_needed-Keeps, rejected-Keeps,
  handle_session_description-candidates,
}

module _ {D C : Type 0} (P : Peer D C) where
  abbrev pub begin : P.State → Bool → Transport P
  begin pc offerer = record {
    pc = pc;
    offerer = offerer;
    has_remote_description = false;
    pending_ice_candidates = [];
    sent = [];
  }

  still_waits :
      (t : Transport P) (es : List (Event D C))
      → (run P t es).has_remote_description ≡ false
      → (candidates (run P t es).sent ≡ candidates t.sent)
        × ((run P t es).pending_ice_candidates ≡ t.pending_ice_candidates ++ all_gathered es)
        × (t.has_remote_description ≡ false)
  unfolding run all_gathered on_ice_candidate
  still_waits t [] w = (refl, rw append-nil, w)
  still_waits t (negotiate ∷ es) w =
      let k = on_negotiation_needed-Keeps P t in
      let (s, p, r) = still_waits (on_negotiation_needed P t) es w in
      (s ∙ k.sent, p ∙ rw k.pending, sym k.remote ∙ r)
  still_waits t (gathered none ∷ es) w = still_waits t es w
  still_waits t (gathered (some c) ∷ es) w =
      let (s, p, r) = still_waits (on_ice_candidate P t (some c)) es w in
      let before : t.has_remote_description ≡ false = elim (Bool-cases t.has_remote_description) [
        | inl x ↦ ground (arith, r)
        | inr x ↦ x
      ] in
      (
        s ∙ ground (arith, before),
        p ∙ simp before (append_assoc t.pending_ice_candidates (c ∷ []) (all_gathered es)),
        before,
      )
  still_waits t (described d ∷ es) w =
      let (s, p, r) = still_waits (handle_session_description P t d).0 es w in
      elim (Bool-cases (is_accepted P t d)) [
        | inl ok ↦ absurd (ground (arith, r, (handle_session_description-candidates P t d ok).2))
        | inr refused ↦
            let k = rejected-Keeps P t d refused in (s ∙ k.sent, p ∙ rw k.pending, sym k.remote ∙ r)
      ]

  abbrev pub IsGathered : Event D C → Type 0
  IsGathered (gathered c) = Unit {0}
  IsGathered _ = ⊥

  on_ice_candidate-known :
      (t : Transport P) (c : C)
      → t.has_remote_description ≡ true
      → on_ice_candidate P t (some c) ≡ record t { sent = t.sent ++ ice_candidate c ∷ [] }
  unfolding on_ice_candidate
  on_ice_candidate-known t c known = ground (arith, known)

  gathers :
      (t : Transport P) (es : List (Event D C))
      → All IsGathered es
      → t.has_remote_description ≡ true
      → candidates (run P t es).sent ≡ candidates t.sent ++ all_gathered es
  unfolding run all_gathered on_ice_candidate
  gathers t [] g known = rw append-nil
  gathers t (gathered none ∷ es) g known = gathers t es g.1 known
  gathers t (gathered (some c) ∷ es) g known =
      ap (λ u. candidates (run P u es).sent) (on_ice_candidate-known t c known)
      ∙ gathers (record t { sent = t.sent ++ ice_candidate c ∷ [] }) es g.1 known
      ∙ rw (candidates-candidate P t.sent c, append_assoc)
  gathers t (negotiate ∷ es) g known = absurd g.0
  gathers t (described d ∷ es) g known = absurd g.0

  -- As long as no session description is accepted, the signaler is given no candidate, and all that
  -- the peer connection gathers are pending, in order.
  run-waits :
      (pc : P.State) (offerer : Bool) (es : List (Event D C))
      → (run P (begin pc offerer) es).has_remote_description ≡ false
      → (candidates (run P (begin pc offerer) es).sent ≡ [])
        × ((run P (begin pc offerer) es).pending_ice_candidates ≡ all_gathered es)
  unfolding candidates
  run-waits pc offerer es w = let (s, p, r) = still_waits (begin pc offerer) es w in (s, p)

  -- Where a session description is accepted for the first time, and only candidates are gathered after
  -- it, the signaler is given every candidate that the peer connection gathers in the session, before
  -- and after the description, once and in order, and none before the description.
  pub run-candidates :
      (pc : P.State) (offerer : Bool) (es later : List (Event D C)) (d : D)
      → let t = run P (begin pc offerer) es in
        t.has_remote_description ≡ false
        → is_accepted P t d ≡ true
        → All IsGathered later
        → (candidates t.sent ≡ [])
          × (candidates (run P (handle_session_description P t d).0 later).sent
              ≡ all_gathered es ++ all_gathered later)
  run-candidates pc offerer es later d w ok g =
      let t = run P (begin pc offerer) es in
      let (s, p) = run-waits pc offerer es w in
      let (s', p', known) = handle_session_description-candidates P t d ok in
      (s, gathers (handle_session_description P t d).0 later g known ∙ rw (s', s, p))
