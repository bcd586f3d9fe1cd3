-- ===== src/Webrtc/HttpSignaling/Order.antt =====
-- The order in which descriptions and candidates reach the two peers of webrtc/transport.go over HTTP.
use mrtp.Prelude.{
  ◌≡◌, refl, ◌∙◌, sym, subst, List, ◌∷◌, ◌++◌, Bool, true, false, Option, none, some, arith,
}
use mrtp.Webrtc.Signaling.{
  Message, ice_candidate, Peer, Transport, on_negotiation_needed, on_ice_candidate,
}
use mrtp.Webrtc.Signaling.Candidates.{on_negotiation_needed-Keeps}
use mrtp.Webrtc.HttpSignaling.{Payload, Format, redecoded}
use mrtp.Webrtc.HttpSignaling.Peers.{
  transport_handler, connect, Step, offerer_negotiates, answerer_negotiates, offerer_gathers,
  answerer_gathers, reaches_answerer, reaches_offerer, Reach, at_start, later, Promises, Side,
  offerer_side, answerer_side, at_side, sent_to, reached,
}
use mrtp.Webrtc.HttpSignaling.Offerer.{
  is_empty, only_descriptions, on_negotiation_needed-OffererInv, on_negotiation_needed-Grows,
  on_ice_candidate-OffererInv, on_ice_candidate-Grows,
}
use mrtp.Webrtc.HttpSignaling.Answerer.{
  leads_with_answer, on_negotiation_needed-answerer, on_ice_candidate-AnswererInv,
}
use mrtp.Webrtc.HttpSignaling.Delivered.{
  Inv, ThePeers, answerer_knows, offerer_knows, reach-answerer, reach-offerer, offerer_acts,
}

module _ {D C : Type 0} {P : Peer D C} {F : Format D C}
    {add_ice_candidate : Payload → P.State → P.State × Bool} {has_local : P.State → Bool}
    {awaits : P.State → Bool} (promises : Promises P F add_ice_candidate has_local awaits)
    (codec : (sd : D)
      → redecoded F (transport_handler P F add_ice_candidate) (F.marshal sd) ≡ some sd) where
  on_ice_candidate-remote :
      (t : Transport P) (c : Option C)
      → (on_ice_candidate P t c).has_remote_description ≡ t.has_remote_description
  unfolding on_ice_candidate
  on_ice_candidate-remote t none = refl
  on_ice_candidate-remote t (some c) = ground arith

  answerer_gathers-Inv :
      (s : ThePeers promises codec) (c : Option C)
      → Inv promises codec s
      → has_local s.answerer.pc ≡ true
      → Inv promises codec (record s { answerer = on_ice_candidate P s.answerer c })
  answerer_gathers-Inv s c i local =
      let same = on_ice_candidate-remote s.answerer c in
      record {
        of_offerer = i.of_offerer;
        of_answerer = on_ice_candidate-AnswererInv promises s.answerer c local i.of_answerer;
        offered = λ e. i.offered (sym same ∙ e);
        both = λ e. same ∙ i.both e;
        answered = i.answered;
      }

  Step-Inv :
      {s t : ThePeers promises codec}
      → Step P F add_ice_candidate has_local s t
      → Inv promises codec s
      → Inv promises codec t
  Step-Inv {s = s} offerer_negotiates i =
      offerer_acts promises codec s (on_negotiation_needed P s.offerer) i
        (on_negotiation_needed-OffererInv promises s.offerer i.of_offerer)
        (on_negotiation_needed-Grows promises s.offerer)
        (on_negotiation_needed-Keeps P s.offerer).remote
  Step-Inv {s = s} answerer_negotiates i =
      subst (λ t. Inv promises codec (record s { answerer = t }))
        (sym (on_negotiation_needed-answerer promises s.answerer i.of_answerer)) i
  Step-Inv {s = s} (offerer_gathers c local) i =
      offerer_acts promises codec s (on_ice_candidate P s.offerer c) i
        (on_ice_candidate-OffererInv promises s.offerer c i.of_offerer)
        (on_ice_candidate-Grows promises s.offerer c) (on_ice_candidate-remote s.offerer c)
  Step-Inv {s = s} (answerer_gathers c local) i = answerer_gathers-Inv s c i local
  Step-Inv {s = s} (reaches_answerer base_url m rest next) i =
      reach-answerer promises codec s base_url m rest i next
  Step-Inv {s = s} (reaches_offerer base_url m rest next) i =
      reach-offerer promises codec s base_url m rest i next

  connect-Inv :
      (pc_offerer pc_answerer : P.State)
      → has_local pc_answerer ≡ false
      → Inv promises codec (connect P F add_ice_candidate pc_offerer pc_answerer)
  unfolding is_empty only_descriptions leads_with_answer
  connect-Inv pc_offerer pc_answerer no_local = record {
    of_offerer = record { role = refl; offers = λ e. refl; awaiting = λ e. absurd cc };
    of_answerer = record {
      role = refl;
      leads = refl;
      known = λ e. absurd cc;
      answered = λ e. absurd cc;
      pending = refl;
    };
    offered = λ e. absurd cc;
    both = λ e. absurd cc;
    answered = λ e. absurd cc;
  }

  Reach-Inv :
      (pc_offerer pc_answerer : P.State)
      → has_local pc_answerer ≡ false
      → {s : ThePeers promises codec}
      → Reach P F add_ice_candidate has_local
          (connect P F add_ice_candidate pc_offerer pc_answerer)
          s
      → Inv promises codec s
  Reach-Inv pc_offerer pc_answerer no_local at_start = connect-Inv pc_offerer pc_answerer no_local
  Reach-Inv pc_offerer pc_answerer no_local (later reach step) =
      Step-Inv step (Reach-Inv pc_offerer pc_answerer no_local reach)

  -- Two peers, one of them the offerer, negotiate, gather candidates and post their messages to each
  -- other in any order of steps, where each peer's messages reach the other one in the order in which
  -- they were sent. Whenever the next message to reach a peer is an ICE candidate, the peer has taken
  -- the other one's session description before, so `AddICECandidate` is never called too early. The
  -- peer connections must keep what the record of promises lists (one that waits for an answer takes
  -- it, descriptions change as documented), the answerer must start without a local description, and
  -- session descriptions must survive the JSON encoding.
  pub add_ice_candidate_in_time :
      (pc_offerer pc_answerer : P.State)
      → has_local pc_answerer ≡ false
      → {s : ThePeers promises codec}
      → Reach P F add_ice_candidate has_local
          (connect P F add_ice_candidate pc_offerer pc_answerer)
          s
      → (side : Side) (c : C) (rest : List (Message D C))
      → sent_to P F add_ice_candidate side s
        ≡ reached P F add_ice_candidate side s ++ ice_candidate c ∷ rest
      → (at_side P F add_ice_candidate side s).has_remote_description ≡ true
  add_ice_candidate_in_time pc_offerer pc_answerer no_local {s = s} reach offerer_side c rest =
      offerer_knows promises codec s c rest (Reach-Inv pc_offerer pc_answerer no_local reach)
  add_ice_candidate_in_time pc_offerer pc_answerer no_local {s = s} reach answerer_side c rest =
      answerer_knows promises codec s c rest (Reach-Inv pc_offerer pc_answerer no_local reach)
