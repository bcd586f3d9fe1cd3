-- ===== src/Webrtc/HttpSignaling/Delivered.antt =====
-- What a message that reaches one of the two peers of webrtc/transport.go over HTTP finds and leaves there.
use mrtp.Prelude.{
  ◌≡◌, ◌∙◌, sym, ◌⊎◌, inl, inr, List, [], ◌∷◌, ◌++◌, Bool, true, false, some, Bool-cases,
  List-cases,
}
use mrtp.Webrtc.Signaling.{
  Message, session_description, ice_candidate, Peer, Transport, handle_session_description,
  handle_ice_candidate,
}
use mrtp.Webrtc.HttpSignaling.{Payload, Format, redecoded}
use mrtp.Webrtc.HttpSignaling.Peers.{transport_handler, reach, Peers, Promises, reach-handled}
use mrtp.Webrtc.HttpSignaling.Offerer.{
  is_empty, is_empty-append, only_descriptions-candidate, OffererInv, Grows,
  handle_session_description-Grows, handle_session_description-answered,
  handle_session_description-OffererInv, handle_ice_candidate-OffererInv,
}
use mrtp.Webrtc.HttpSignaling.Answerer.{
  leads_with_answer, leads_with_answer-first, AnswererInv, handle_session_description-AnswererInv,
  handle_ice_candidate-AnswererInv,
}

module _ {D C : Type 0} {P : Peer D C} {F : Format D C}
    {add_ice_candidate : Payload → P.State → P.State × Bool} {has_local : P.State → Bool}
    {awaits : P.State → Bool} (promises : Promises P F add_ice_candidate has_local awaits)
    (codec : (sd : D)
      → redecoded F (transport_handler P F add_ice_candidate) (F.marshal sd) ≡ some sd) where
  abbrev pub ThePeers : Type 0
  ThePeers = Peers P F add_ice_candidate

  -- `offered`: the answerer knows the offerer once the offerer has sent something; `both`: the offerer
  -- learns of the answerer last; `answered`: it does with the first message that reaches it.
  pub record Inv (s : ThePeers) : Type 0 where
    pub of_offerer : OffererInv promises s.offerer
    pub of_answerer : AnswererInv promises s.answerer
    pub offered : s.answerer.has_remote_description ≡ true → is_empty s.offerer.sent ≡ false
    pub both : s.offerer.has_remote_description ≡ true → s.answerer.has_remote_description ≡ true
    pub answered : is_empty s.reached_offerer ≡ false → s.offerer.has_remote_description ≡ true

  -- A candidate that is next for the answerer comes when the answerer has the offer.
  pub answerer_knows :
      (s : ThePeers) (c : C) (rest : List (Message D C))
      → Inv s
      → s.offerer.sent ≡ s.reached_answerer ++ ice_candidate c ∷ rest
      → s.answerer.has_remote_description ≡ true
  answerer_knows s c rest i next = elim (Bool-cases s.offerer.has_remote_description) [
    | inl e ↦ i.both e
    | inr e ↦
        let mixed = only_descriptions-candidate s.reached_answerer c rest in
        absurd (cc (i.of_offerer.offers e, mixed, next))
  ]

  -- The next message for the offerer, unless the offerer has the answer, is the answer.
  next_is_answer :
      (s : ThePeers) (m : Message D C) (rest : List (Message D C))
      → Inv s
      → s.answerer.sent ≡ s.reached_offerer ++ m ∷ rest
      → (s.offerer.has_remote_description ≡ true)
        ⊎ (leads_with_answer promises.is_answer (m ∷ []) ≡ true)
  unfolding is_empty
  next_is_answer s m rest i next = elim (List-cases s.reached_offerer) [
    | inl e ↦
        let is : s.answerer.sent ≡ m ∷ rest = next ∙ rw e in
        inr (sym (leads_with_answer-first promises.is_answer m rest) ∙ rw⁻¹ is i.of_answerer.leads)
    | inr (x, (xs, e)) ↦ inl (i.answered (rw e))
  ]

  -- A message of the offerer reaches the answerer.
  answerer_handles :
      (s : ThePeers) (m : Message D C) (rest : List (Message D C)) (u : Transport P)
      → Inv s
      → s.offerer.sent ≡ s.reached_answerer ++ m ∷ rest
      → AnswererInv promises u
      → Grows promises s.answerer u
      → Inv (record s { answerer = u; reached_answerer = s.reached_answerer ++ m ∷ [] })
  answerer_handles s m rest u i next of_u grows = record {
    of_offerer = i.of_offerer;
    of_answerer = of_u;
    offered = λ known. rw next (is_empty-append s.reached_answerer m rest);
    both = λ known. grows.remote (i.both known);
    answered = i.answered;
  }

  -- A message of the answerer reaches the offerer.
  offerer_handles :
      (s : ThePeers) (m : Message D C) (rest : List (Message D C)) (u : Transport P)
      → Inv s
      → s.answerer.sent ≡ s.reached_offerer ++ m ∷ rest
      → OffererInv promises u
      → Grows promises s.offerer u
      → u.has_remote_description ≡ true
      → Inv (record s { offerer = u; reached_offerer = s.reached_offerer ++ m ∷ [] })
  offerer_handles s m rest u i next of_u grows known =
      let sent : is_empty s.answerer.sent ≡ false =
        rw next (is_empty-append s.reached_offerer m rest) in
      record {
        of_offerer = of_u;
        of_answerer = i.of_answerer;
        offered = λ e. grows.sent (i.offered e);
        both = λ e. i.of_answerer.known sent;
        answered = λ e. known;
      }

  handle_ice_candidate-Grows :
      (t : Transport P) (c : Payload)
      → Grows promises t (handle_ice_candidate P add_ice_candidate t c).0
  unfolding handle_ice_candidate
  handle_ice_candidate-Grows t c = record { remote = λ e. e; sent = λ e. e }

  pub reach-answerer :
      (s : ThePeers) (base_url : Payload) (m : Message D C) (rest : List (Message D C))
      → Inv s
      → s.offerer.sent ≡ s.reached_answerer ++ m ∷ rest
      → Inv (record s {
        answerer = reach P F add_ice_candidate base_url s.answerer m;
        reached_answerer = s.reached_answerer ++ m ∷ [];
      })
  reach-answerer s base_url (session_description d) rest i next =
      let t = (handle_session_description P s.answerer d).0 in
      rw (reach-handled P F add_ice_candidate codec base_url s.answerer (session_description d)) (
        answerer_handles s (session_description d) rest t i next
          (handle_session_description-AnswererInv promises s.answerer d i.of_answerer)
          (handle_session_description-Grows promises s.answerer d))
  reach-answerer s base_url (ice_candidate c) rest i next =
      let t = (handle_ice_candidate P add_ice_candidate s.answerer (F.text c)).0 in
      rw (reach-handled P F add_ice_candidate codec base_url s.answerer (ice_candidate c)) (
        answerer_handles s (ice_candidate c) rest t i next
          (handle_ice_candidate-AnswererInv promises s.answerer (F.text c) i.of_answerer)
          (handle_ice_candidate-Grows s.answerer (F.text c)))

  pub offerer_knows :
      (s : ThePeers) (c : C) (rest : List (Message D C))
      → Inv s
      → s.answerer.sent ≡ s.reached_offerer ++ ice_candidate c ∷ rest
      → s.offerer.has_remote_description ≡ true
  unfolding leads_with_answer
  offerer_knows s c rest i next = elim (next_is_answer s (ice_candidate c) rest i next) [
    | inl e ↦ e
    | inr e ↦ absurd cc
  ]

  offerer_learns :
      (s : ThePeers) (d : D) (rest : List (Message D C))
      → Inv s
      → s.answerer.sent ≡ s.reached_offerer ++ session_description d ∷ rest
      → (handle_session_description P s.offerer d).0.has_remote_description ≡ true
  unfolding leads_with_answer
  offerer_learns s d rest i next =
      let sent : is_empty s.answerer.sent ≡ false =
        rw next (is_empty-append s.reached_offerer (session_description d) rest) in
      elim (next_is_answer s (session_description d) rest i next) [
        | inl e ↦ (handle_session_description-Grows promises s.offerer d).remote e
        | inr e ↦
            handle_session_description-answered promises s.offerer d i.of_offerer e
              (i.offered (i.of_answerer.known sent))
      ]

  pub reach-offerer :
      (s : ThePeers) (base_url : Payload) (m : Message D C) (rest : List (Message D C))
      → Inv s
      → s.answerer.sent ≡ s.reached_offerer ++ m ∷ rest
      → Inv (record s {
        offerer = reach P F add_ice_candidate base_url s.offerer m;
        reached_offerer = s.reached_offerer ++ m ∷ [];
      })
  reach-offerer s base_url (session_description d) rest i next =
      let t = (handle_session_description P s.offerer d).0 in
      rw (reach-handled P F add_ice_candidate codec base_url s.offerer (session_description d)) (
        offerer_handles s (session_description d) rest t i next
          (handle_session_description-OffererInv promises s.offerer d i.of_offerer
            (offerer_learns s d rest i next))
          (handle_session_description-Grows promises s.offerer d) (offerer_learns s d rest i next))
  reach-offerer s base_url (ice_candidate c) rest i next =
      let t = (handle_ice_candidate P add_ice_candidate s.offerer (F.text c)).0 in
      let known = offerer_knows s c rest i next in
      let grows = handle_ice_candidate-Grows s.offerer (F.text c) in
      rw (reach-handled P F add_ice_candidate codec base_url s.offerer (ice_candidate c)) (
        offerer_handles s (ice_candidate c) rest t i next
          (handle_ice_candidate-OffererInv promises s.offerer (F.text c) known i.of_offerer) grows
          (grows.remote known))

  -- The offerer does something on its own.
  pub offerer_acts :
      (s : ThePeers) (u : Transport P)
      → Inv s
      → OffererInv promises u
      → Grows promises s.offerer u
      → u.has_remote_description ≡ s.offerer.has_remote_description
      → Inv (record s { offerer = u })
  offerer_acts s u i of_u grows same = record {
    of_offerer = of_u;
    of_answerer = i.of_answerer;
    offered = λ e. grows.sent (i.offered e);
    both = λ e. i.both (sym same ∙ e);
    answered = λ e. same ∙ i.answered e;
  }
