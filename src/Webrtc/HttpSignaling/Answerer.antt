-- ===== src/Webrtc/HttpSignaling/Answerer.antt =====
-- The answerer of webrtc/transport.go in a session over HTTP.
use mrtp.Prelude.{
  ◌≡◌, refl, ◌∙◌, sym, List, [], ◌∷◌, ◌++◌, append-nil, Bool, true, false, Option, none, some, inl,
  inr, Option-cases, arith,
}
use mrtp.Webrtc.Signaling.{
  Message, session_description, ice_candidate, Peer, Transport, on_negotiation_needed,
  on_ice_candidate, send_pending, answer_offer, handle_session_description, handle_ice_candidate,
}
use mrtp.Webrtc.Signaling.Candidates.{described_by}
use mrtp.Webrtc.HttpSignaling.{Payload, Format}
use mrtp.Webrtc.HttpSignaling.Peers.{Promises}
use mrtp.Webrtc.HttpSignaling.Offerer.{is_empty, is_empty-append}

module _ {D C : Type 0} (is_answer : D → Bool) where
  -- Whether the first message, if there is one, is an answer.
  unfoldable pub leads_with_answer : List (Message D C) → Bool
  leads_with_answer [] = true
  leads_with_answer (session_description d ∷ ms) = is_answer d
  leads_with_answer (ice_candidate c ∷ ms) = false

  leads_with_answer-append :
      (xs ys : List (Message D C))
      → is_empty xs ≡ false
      → leads_with_answer (xs ++ ys) ≡ leads_with_answer xs
  unfolding leads_with_answer is_empty
  leads_with_answer-append [] ys e = cc
  leads_with_answer-append (session_description d ∷ xs) ys e = refl
  leads_with_answer-append (ice_candidate c ∷ xs) ys e = refl

  pub leads_with_answer-first :
      (m : Message D C) (ms : List (Message D C))
      → leads_with_answer (m ∷ ms) ≡ leads_with_answer (m ∷ [])
  unfolding leads_with_answer
  leads_with_answer-first (session_description d) ms = refl
  leads_with_answer-first (ice_candidate c) ms = refl

  leads_with_answer-answer :
      (xs : List (Message D C)) (d : D)
      → leads_with_answer xs ≡ true
      → is_answer d ≡ true
      → leads_with_answer (xs ++ session_description d ∷ []) ≡ true
  unfolding leads_with_answer
  leads_with_answer-answer [] d e answer = rw answer
  leads_with_answer-answer (session_description d' ∷ xs) d e answer = e
  leads_with_answer-answer (ice_candidate c ∷ xs) d e answer = e

module _ {D C : Type 0} {P : Peer D C} {F : Format D C}
    {add_ice_candidate : Payload → P.State → P.State × Bool} {has_local : P.State → Bool}
    {awaits : P.State → Bool} (promises : Promises P F add_ice_candidate has_local awaits) where
  -- What holds of the answerer: its answer goes before everything else it sends, and it has no local
  -- description, and no pending candidates, before.
  pub record AnswererInv (t : Transport P) : Type 0 where
    pub role : t.offerer ≡ false
    pub leads : leads_with_answer promises.is_answer t.sent ≡ true
    pub known : is_empty t.sent ≡ false → t.has_remote_description ≡ true
    pub answered : has_local t.pc ≡ true → is_empty t.sent ≡ false
    pub pending : t.pending_ice_candidates ≡ []

  pub on_negotiation_needed-answerer :
      (t : Transport P) → AnswererInv t → on_negotiation_needed P t ≡ t
  unfolding on_negotiation_needed
  on_negotiation_needed-answerer t i = rw i.role

  pub on_ice_candidate-AnswererInv :
      (t : Transport P) (c : Option C)
      → has_local t.pc ≡ true
      → AnswererInv t
      → AnswererInv (on_ice_candidate P t c)
  unfolding on_ice_candidate
  on_ice_candidate-AnswererInv t none gathers i = i
  on_ice_candidate-AnswererInv t (some c) gathers i =
      let sent = i.answered gathers in
      let known = i.known sent in
      record {
        role = ground (arith, i.role);
        leads = ground (
          arith,
          known,
          i.leads,
          leads_with_answer-append promises.is_answer t.sent (ice_candidate c ∷ []) sent,
        );
        known = ground (arith, known);
        answered = ground (arith, known, is_empty-append t.sent (ice_candidate c) []);
        pending = ground (arith, known, i.pending);
      }

  answer_offer-AnswererInv :
      (t : Transport P)
      → t.has_remote_description ≡ true
      → AnswererInv t
      → AnswererInv (answer_offer P t).0
  unfolding answer_offer
  answer_offer-AnswererInv t known i = elim (Option-cases (P.create_answer t.pc).1) [
    | inl e ↦ record {
      role = ground (arith, i.role);
      leads = ground (arith, i.leads);
      known = ground (arith, known);
      answered = ground (arith, i.answered, promises.created_local t.pc);
      pending = ground (arith, i.pending);
    }
    | inr (answer, e) ↦
        let pc = (P.create_answer t.pc).0 in
        let told = P.local_description (P.set_local_description answer pc).0 in
        let is = promises.told_is_answer t.pc answer e in
        record {
          role = ground (arith, i.role);
          leads =
              ground (
                arith,
                i.leads,
                is,
                leads_with_answer-answer promises.is_answer t.sent told i.leads,
              );
          known = ground (arith, known);
          answered = ground (
            arith,
            i.answered,
            promises.created_local t.pc,
            promises.refused_local pc answer,
            is_empty-append t.sent (session_description told) [],
          );
          pending = ground (arith, i.pending);
        }
  ]

  described_by-AnswererInv :
      (t : Transport P) (d : D) → AnswererInv t → AnswererInv (described_by P t d)
  unfolding send_pending
  described_by-AnswererInv t d i =
      let same : t.sent ++ send_pending P t.pending_ice_candidates ≡ t.sent =
        rw (i.pending, append-nil) in
      record {
        role = i.role;
        leads = rw same i.leads;
        known = λ e. refl;
        answered = λ l. rw same (i.answered (sym (promises.remote_local t.pc d) ∙ l));
        pending = i.pending;
      }

  pub handle_session_description-AnswererInv :
      (t : Transport P) (d : D) → AnswererInv t → AnswererInv (handle_session_description P t d).0
  unfolding handle_session_description
  handle_session_description-AnswererInv t d i =
      let u = described_by-AnswererInv t d i in
      let v = answer_offer-AnswererInv (described_by P t d) refl u in
      record {
        role = ground (arith, i.role, u.role, v.role);
        leads = ground (arith, i.role, i.leads, u.leads, v.leads);
        known = ground (arith, i.role, i.known, u.known, v.known);
        answered =
            ground
              (arith, i.role, i.answered, u.answered, v.answered, promises.remote_local t.pc d);
        pending = ground (arith, i.role, i.pending, u.pending, v.pending);
      }

  pub handle_ice_candidate-AnswererInv :
      (t : Transport P) (c : Payload)
      → AnswererInv t
      → AnswererInv (handle_ice_candidate P add_ice_candidate t c).0
  unfolding handle_ice_candidate
  handle_ice_candidate-AnswererInv t c i = record {
    role = i.role;
    leads = i.leads;
    known = i.known;
    answered = λ l. i.answered (sym (promises.added_local t.pc c) ∙ l);
    pending = i.pending;
  }
