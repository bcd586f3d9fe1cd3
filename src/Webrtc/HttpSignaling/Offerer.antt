-- ===== src/Webrtc/HttpSignaling/Offerer.antt =====
-- The offerer of webrtc/transport.go in a session over HTTP.
use mrtp.Prelude.{
  ◌≡◌, refl, List, [], ◌∷◌, ◌++◌, Bool, true, false, Option, none, some, inl, inr, Option-cases,
  Bool-cases, arith,
}
use mrtp.Webrtc.Signaling.{
  Message, session_description, ice_candidate, Peer, Transport, on_negotiation_needed,
  on_ice_candidate, send_pending, answer_offer, handle_session_description, handle_ice_candidate,
}
use mrtp.Webrtc.Signaling.Candidates.{described_by}
use mrtp.Webrtc.HttpSignaling.{Payload, Format}
use mrtp.Webrtc.HttpSignaling.Peers.{Promises}

module _ {D C : Type 0} where
  unfoldable pub is_empty : List (Message D C) → Bool
  is_empty [] = true
  is_empty (m ∷ ms) = false

  unfoldable pub only_descriptions : List (Message D C) → Bool
  only_descriptions [] = true
  only_descriptions (session_description d ∷ ms) = only_descriptions ms
  only_descriptions (ice_candidate c ∷ ms) = false

  pub is_empty-append :
      (xs : List (Message D C)) (m : Message D C) (ys : List (Message D C))
      → is_empty (xs ++ m ∷ ys) ≡ false
  unfolding is_empty
  is_empty-append [] m ys = refl
  is_empty-append (x ∷ xs) m ys = refl

  pub is_empty-keeps :
      (xs ys : List (Message D C)) → is_empty xs ≡ false → is_empty (xs ++ ys) ≡ false
  unfolding is_empty
  is_empty-keeps [] ys e = cc
  is_empty-keeps (x ∷ xs) ys e = refl

  only_descriptions-append :
      (xs : List (Message D C)) (d : D)
      → only_descriptions (xs ++ session_description d ∷ []) ≡ only_descriptions xs
  unfolding only_descriptions
  only_descriptions-append [] d = refl
  only_descriptions-append (session_description e ∷ xs) d = only_descriptions-append xs d
  only_descriptions-append (ice_candidate c ∷ xs) d = refl

  pub only_descriptions-candidate :
      (xs : List (Message D C)) (c : C) (ys : List (Message D C))
      → only_descriptions (xs ++ ice_candidate c ∷ ys) ≡ false
  unfolding only_descriptions
  only_descriptions-candidate [] c ys = refl
  only_descriptions-candidate (session_description d ∷ xs) c ys =
      only_descriptions-candidate xs c ys
  only_descriptions-candidate (ice_candidate e ∷ xs) c ys = refl

module _ {D C : Type 0} {P : Peer D C} {F : Format D C}
    {add_ice_candidate : Payload → P.State → P.State × Bool} {has_local : P.State → Bool}
    {awaits : P.State → Bool} (promises : Promises P F add_ice_candidate has_local awaits) where
  -- What holds of the offerer: before it has an answer it has sent nothing but offers, and once it has
  -- sent one it waits for the answer.
  pub record OffererInv (t : Transport P) : Type 0 where
    pub role : t.offerer ≡ true
    pub offers : t.has_remote_description ≡ false → only_descriptions t.sent ≡ true
    pub awaiting : is_empty t.sent ≡ false → t.has_remote_description ≡ false → awaits t.pc ≡ true

  -- What a call may only add to.
  pub record Grows (t u : Transport P) : Type 0 where
    pub remote : t.has_remote_description ≡ true → u.has_remote_description ≡ true
    pub sent : is_empty t.sent ≡ false → is_empty u.sent ≡ false

  pub on_negotiation_needed-OffererInv :
      (t : Transport P) → OffererInv t → OffererInv (on_negotiation_needed P t)
  unfolding on_negotiation_needed
  on_negotiation_needed-OffererInv t i = elim (Option-cases (P.create_offer t.pc).1) [
    | inl e ↦ record {
      role = ground (arith, i.role);
      offers = ground (arith, i.role, i.offers);
      awaiting = ground (arith, i.role, i.awaiting, promises.created_awaits t.pc);
    }
    | inr (offer, e) ↦
        let pc = (P.create_offer t.pc).0 in
        let is = promises.offer_is_offer t.pc offer e in
        record {
          role = ground (arith, i.role);
          offers = ground (arith, i.role, i.offers, only_descriptions-append t.sent offer);
          awaiting = ground (
            arith,
            i.role,
            i.awaiting,
            promises.created_awaits t.pc,
            promises.offer_awaits pc offer is,
            promises.refused_awaits pc offer,
          );
        }
  ]

  pub on_negotiation_needed-Grows : (t : Transport P) → Grows t (on_negotiation_needed P t)
  unfolding on_negotiation_needed
  on_negotiation_needed-Grows t = elim (Option-cases (P.create_offer t.pc).1) [
    | inl e ↦ record { remote = ground arith; sent = ground arith }
    | inr (offer, e) ↦ record {
      remote = ground arith;
      sent = ground (arith, is_empty-keeps t.sent (session_description offer ∷ []));
    }
  ]

  pub on_ice_candidate-OffererInv :
      (t : Transport P) (c : Option C) → OffererInv t → OffererInv (on_ice_candidate P t c)
  unfolding on_ice_candidate
  on_ice_candidate-OffererInv t none i = i
  on_ice_candidate-OffererInv t (some c) i = elim (Bool-cases t.has_remote_description) [
    | inl e ↦ record {
      role = ground (arith, i.role);
      offers = ground arith;
      awaiting = ground arith;
    }
    | inr e ↦ record {
      role = ground (arith, i.role);
      offers = ground (arith, i.offers);
      awaiting = ground (arith, i.awaiting);
    }
  ]

  pub on_ice_candidate-Grows : (t : Transport P) (c : Option C) → Grows t (on_ice_candidate P t c)
  unfolding on_ice_candidate
  on_ice_candidate-Grows t none = record { remote = λ x. x; sent = λ x. x }
  on_ice_candidate-Grows t (some c) = record {
    remote = ground arith;
    sent = ground (arith, is_empty-keeps t.sent (ice_candidate c ∷ []));
  }

  answer_offer-Grows : (t : Transport P) → Grows t (answer_offer P t).0
  unfolding answer_offer
  answer_offer-Grows t = elim (Option-cases (P.create_answer t.pc).1) [
    | inl e ↦ record { remote = ground arith; sent = ground arith }
    | inr (answer, e) ↦
        let told =
          P.local_description (P.set_local_description answer (P.create_answer t.pc).0).0 in
        record {
          remote = ground arith;
          sent = ground (arith, is_empty-keeps t.sent (session_description told ∷ []));
        }
  ]

  pub handle_session_description-Grows :
      (t : Transport P) (d : D) → Grows t (handle_session_description P t d).0
  unfolding handle_session_description
  handle_session_description-Grows t d =
      let g = answer_offer-Grows (described_by P t d) in
      let more = is_empty-keeps t.sent (send_pending P t.pending_ice_candidates) in
      record { remote = ground (arith, g.remote); sent = ground (arith, g.sent, more) }

  pub handle_session_description-answered :
      (t : Transport P) (d : D)
      → OffererInv t
      → promises.is_answer d ≡ true
      → is_empty t.sent ≡ false
      → (handle_session_description P t d).0.has_remote_description ≡ true
  unfolding handle_session_description
  handle_session_description-answered t d i answer sent =
      elim (Bool-cases t.has_remote_description) [
        | inl e ↦ (handle_session_description-Grows t d).remote e
        | inr e ↦
            let taken = promises.answer_is_taken t.pc d (i.awaiting sent e) answer in
            ground (arith, taken, promises.answer_kind d answer)
      ]

  answer_offer-role : (t : Transport P) → (answer_offer P t).0.offerer ≡ t.offerer
  unfolding answer_offer
  answer_offer-role t = elim (Option-cases (P.create_answer t.pc).1) [
    | inl e ↦ ground arith
    | inr (a, e) ↦ ground arith
  ]

  pub handle_session_description-OffererInv :
      (t : Transport P) (d : D)
      → OffererInv t
      → (handle_session_description P t d).0.has_remote_description ≡ true
      → OffererInv (handle_session_description P t d).0
  unfolding handle_session_description
  handle_session_description-OffererInv t d i known = record {
    role = ground (arith, i.role, answer_offer-role (described_by P t d));
    offers = λ e. absurd (cc (known, e));
    awaiting = λ sent e. absurd (cc (known, e));
  }

  pub handle_ice_candidate-OffererInv :
      (t : Transport P) (c : Payload)
      → t.has_remote_description ≡ true
      → OffererInv t
      → OffererInv (handle_ice_candidate P add_ice_candidate t c).0
  unfolding handle_ice_candidate
  handle_ice_candidate-OffererInv t c known i = record {
    role = i.role;
    offers = ground (arith, i.offers);
    awaiting = ground arith;
  }
