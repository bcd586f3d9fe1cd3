-- ===== src/Webrtc/Signaling/Candidates.antt =====
-- The ICE candidates that the signaler of webrtc/transport.go is given.
use mrtp.Prelude.{
  ◌≡◌, refl, ◌∙◌, List, [], ◌∷◌, ◌++◌, append-nil, Bool, true, false, ◌&&◌, not, Option, some, inl,
  inr, Option-cases, arith,
}
use mrtp.Webrtc.Signaling.{
  Message, session_description, ice_candidate, Peer, Transport, on_negotiation_needed,
  on_ice_candidate, send_pending, answer_offer, handle_session_description,
}

pub data Event (Description Candidate : Type 0) : Type 0 where
  negotiate : Event Description Candidate
  gathered : Option Candidate → Event Description Candidate
  described : Description → Event Description Candidate

module _ {D C : Type 0} where
  unfoldable pub candidates : List (Message D C) → List C
  candidates [] = []
  candidates (session_description d ∷ ms) = candidates ms
  candidates (ice_candidate c ∷ ms) = c ∷ candidates ms

  -- The candidates that the peer connection gathers in a session.
  unfoldable pub all_gathered : List (Event D C) → List C
  all_gathered [] = []
  all_gathered (gathered (some c) ∷ es) = c ∷ all_gathered es
  all_gathered (_ ∷ es) = all_gathered es

  pub candidates-append :
      (xs ys : List (Message D C)) → candidates (xs ++ ys) ≡ candidates xs ++ candidates ys
  unfolding candidates
  candidates-append [] ys = refl
  candidates-append (session_description d ∷ xs) ys = candidates-append xs ys
  candidates-append (ice_candidate c ∷ xs) ys = rw (candidates-append xs ys)

module _ {D C : Type 0} (P : Peer D C) where
  candidates-send_pending : (cs : List C) → candidates (send_pending P cs) ≡ cs
  unfolding candidates send_pending
  candidates-send_pending [] = refl
  candidates-send_pending (c ∷ cs) = rw (candidates-send_pending cs)

  abbrev pub step : Transport P → Event D C → Transport P
  step t negotiate = on_negotiation_needed P t
  step t (gathered c) = on_ice_candidate P t c
  step t (described d) = (handle_session_description P t d).0

  unfoldable pub run : Transport P → List (Event D C) → Transport P
  run t [] = t
  run t (e ∷ es) = run (step t e) es

  -- Whether the description is accepted: the peer connection takes it, and it is no offer to an offerer.
  abbrev pub is_accepted : Transport P → D → Bool
  is_accepted t d = not (t.offerer && P.is_offer d) && (P.set_remote_description d t.pc).1

  -- What does not change when only session descriptions are sent.
  pub record Keeps (t u : Transport P) : Type 0 where
    pub sent : candidates u.sent ≡ candidates t.sent
    pub pending : u.pending_ice_candidates ≡ t.pending_ice_candidates
    pub remote : u.has_remote_description ≡ t.has_remote_description

  candidates-description :
      (ms : List (Message D C)) (d : D)
      → candidates (ms ++ session_description d ∷ []) ≡ candidates ms
  unfolding candidates
  candidates-description ms d =
      candidates-append ms (session_description d ∷ []) ∙ append-nil (candidates ms)

  pub candidates-candidate :
      (ms : List (Message D C)) (c : C)
      → candidates (ms ++ ice_candidate c ∷ []) ≡ candidates ms ++ c ∷ []
  unfolding candidates
  candidates-candidate ms c = candidates-append ms (ice_candidate c ∷ [])

  pub on_negotiation_needed-Keeps : (t : Transport P) → Keeps t (on_negotiation_needed P t)
  unfolding on_negotiation_needed
  on_negotiation_needed-Keeps t = elim (Option-cases (P.create_offer t.pc).1) [
    | inl e ↦ record { sent = ground arith; pending = ground arith; remote = ground arith }
    | inr (offer, e) ↦ record {
      sent = ground (arith, candidates-description t.sent offer);
      pending = ground arith;
      remote = ground arith;
    }
  ]

  answer_offer-Keeps : (t : Transport P) → Keeps t (answer_offer P t).0
  unfolding answer_offer
  answer_offer-Keeps t = elim (Option-cases (P.create_answer t.pc).1) [
    | inl e ↦ record { sent = ground arith; pending = ground arith; remote = ground arith }
    | inr (answer, e) ↦ record {
      sent = ground (
        arith,
        candidates-description t.sent
            (P.local_description (P.set_local_description answer (P.create_answer t.pc).0).0),
      );
      pending = ground arith;
      remote = ground arith;
    }
  ]

  -- The transport after a description is accepted, before an answer.
  abbrev pub described_by : Transport P → D → Transport P
  described_by t d = record t {
    pc = (P.set_remote_description d t.pc).0;
    has_remote_description = true;
    sent = t.sent ++ send_pending P t.pending_ice_candidates;
  }

  accepted-Keeps :
      (t : Transport P) (d : D)
      → is_accepted t d ≡ true
      → Keeps (described_by t d) (handle_session_description P t d).0
  unfolding handle_session_description
  accepted-Keeps t d ok =
      let k = answer_offer-Keeps (described_by t d) in
      record {
        sent = ground (arith, k.sent);
        pending = ground (arith, k.pending);
        remote = ground (arith, k.remote);
      }

  pub rejected-Keeps :
      (t : Transport P) (d : D)
      → is_accepted t d ≡ false
      → Keeps t (handle_session_description P t d).0
  unfolding handle_session_description
  rejected-Keeps t d refused = record {
    sent = ground arith;
    pending = ground arith;
    remote = ground arith;
  }

  -- Whenever a session description is accepted, the signaler is given all pending candidates, after
  -- what it was given before, and they stay pending: a second description sends them again.
  pub handle_session_description-candidates :
      (t : Transport P) (d : D)
      → is_accepted t d ≡ true
      → let u = (handle_session_description P t d).0 in
        (candidates u.sent ≡ candidates t.sent ++ t.pending_ice_candidates)
        × (u.pending_ice_candidates ≡ t.pending_ice_candidates)
        × (u.has_remote_description ≡ true)
  handle_session_description-candidates t d ok =
      let k = accepted-Keeps t d ok in
      (
        k.sent
            ∙ candidates-append t.sent (send_pending P t.pending_ice_candidates)
            ∙ rw (candidates-send_pending t.pending_ice_candidates),
        k.pending,
        k.remote,
      )
