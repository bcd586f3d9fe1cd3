-- ===== src/Webrtc/Signaling.antt =====
-- webrtc/transport.go: session descriptions and ICE candidates between the peer connection and the
-- signaler. The peer connection is pion's and the signaler is the program's user: parameters.
pub mod Candidates
pub mod Sessions
use mrtp.Prelude.{List, [], ◌∷◌, ◌++◌, Bool, true, false, ◌&&◌, Option, none, some, if◌then◌else◌}

-- Errors of `HandleSessionDescription` and `HandleICECandidate`; each stands for one text.
pub data HandleError : Type 0 where
  offered_to_offerer : HandleError
  not_processed : HandleError
  no_answer : HandleError
  no_local_description : HandleError
  not_sent : HandleError
  not_added : HandleError

module _ (Description Candidate : Type 0) where
  pub data Message : Type 0 where
    session_description : Description → Message
    ice_candidate : Candidate → Message

  -- The peer connection as the transport uses it; `false` and `none` are errors. `accepts` is whether
  -- the signaler sends a message, after those that it was given before.
  pub record Peer : Type 1 where
    pub State : Type 0
    pub is_offer : Description → Bool
    pub create_offer : State → State × Option Description
    pub create_answer : State → State × Option Description
    pub set_local_description : Description → State → State × Bool
    pub set_remote_description : Description → State → State × Bool
    pub local_description : State → Description
    pub accepts : List Message → Message → Bool

module _ {Description Candidate : Type 0} (P : Peer Description Candidate) where
  open P use {
    State, is_offer, create_offer, create_answer, set_local_description, set_remote_description,
    local_description, accepts,
  }

  -- `sent` is what the signaler was given, in order.
  pub record Transport : Type 0 where
    pub pc : State
    pub offerer : Bool
    pub has_remote_description : Bool
    pub pending_ice_candidates : List Candidate
    pub sent : List (Message Description Candidate)

  unfoldable pub on_negotiation_needed : Transport → Transport
  on_negotiation_needed t =
      let (pc₁, created) = create_offer t.pc in
      if t.offerer
      then elim created [
        | none ↦ record t { pc = pc₁ }
        | some offer ↦
            let (pc₂, set) = set_local_description offer pc₁ in
            if set
            then record t { pc = pc₂; sent = t.sent ++ session_description offer ∷ [] }
            else record t { pc = pc₂ }
      ]
      else t

  -- `none` is the nil candidate that ends the gathering. An error of the signaler is only logged.
  unfoldable pub on_ice_candidate : Transport → Option Candidate → Transport
  on_ice_candidate t none = t
  on_ice_candidate t (some c) =
      if t.has_remote_description
      then record t { sent = t.sent ++ ice_candidate c ∷ [] }
      else record t { pending_ice_candidates = t.pending_ice_candidates ++ c ∷ [] }

  unfoldable pub send_pending : List Candidate → List (Message Description Candidate)
  send_pending [] = []
  send_pending (c ∷ cs) = ice_candidate c ∷ send_pending cs

  -- The answer to an offer.
  unfoldable pub answer_offer : Transport → Transport × Option HandleError
  answer_offer t =
      let (pc₁, created) = create_answer t.pc in
      elim created [
        | none ↦ (record t { pc = pc₁ }, some no_answer)
        | some answer ↦
            let (pc₂, set) = set_local_description answer pc₁ in
            let message = session_description (local_description pc₂) in
            if set
            then (
              record t { pc = pc₂; sent = t.sent ++ message ∷ [] },
              if accepts t.sent message then none else some not_sent,
            )
            else (record t { pc = pc₂ }, some no_local_description)
      ]

  unfoldable pub handle_session_description :
      Transport → Description → Transport × Option HandleError
  handle_session_description t description =
      let (pc₁, processed) = set_remote_description description t.pc in
      let u = record t {
        pc = pc₁;
        has_remote_description = true;
        sent = t.sent ++ send_pending t.pending_ice_candidates;
      } in
      if t.offerer && is_offer description
      then (t, some offered_to_offerer)
      else if processed
      then if is_offer description then answer_offer u else (u, none)
      else (record t { pc = pc₁ }, some not_processed)

  -- `add_ice_candidate` is the peer connection's, on the text of the candidate.
  unfoldable pub handle_ice_candidate :
      {Init : Type 0}
      → (Init → State → State × Bool)
      → Transport
      → Init
      → Transport × Option HandleError
  handle_ice_candidate add_ice_candidate t candidate =
      let (pc₁, added) = add_ice_candidate candidate t.pc in
      (record t { pc = pc₁ }, if added then none else some not_added)
