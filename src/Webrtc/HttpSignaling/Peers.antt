-- ===== src/Webrtc/HttpSignaling/Peers.antt =====
-- Two transports of webrtc/transport.go, as subcmd/webrtc.go connects them: each posts its messages to the
-- other one's HTTP server. One of them is the offerer.
use mrtp.Prelude.{◌≡◌, ap, List, [], ◌∷◌, ◌++◌, Bool, true, false, Option, some}
use mrtp.Webrtc.Signaling.{
  Message, session_description, ice_candidate, HandleError, Peer, Transport, on_negotiation_needed,
  on_ice_candidate, handle_session_description, handle_ice_candidate,
}
use mrtp.Webrtc.Signaling.Sessions.{begin}
use mrtp.Webrtc.HttpSignaling.{
  Payload, Format, SignalHandler, send, over_network, redecoded, handled, IsReadable, send-route,
}

pub data Side : Type 0 where
  offerer_side : Side
  answerer_side : Side

module _ {D C : Type 0} (P : Peer D C) (F : Format D C)
    (add_ice_candidate : Payload → P.State → P.State × Bool) where
  abbrev pub transport_handler : SignalHandler D (Transport P)
  transport_handler = record {
    Error = HandleError;
    handle_session_description = handle_session_description P;
    handle_ice_candidate = handle_ice_candidate P add_ice_candidate;
  }

  -- A post of the message to the transport.
  unfoldable pub reach : Payload → Transport P → Message D C → Transport P
  reach base_url t m = (send F (over_network F transport_handler) base_url t m).0

  -- The two peers, with the messages that have reached each of them.
  pub record Peers : Type 0 where
    pub offerer : Transport P
    pub answerer : Transport P
    pub reached_answerer : List (Message D C)
    pub reached_offerer : List (Message D C)

  abbrev pub connect : P.State → P.State → Peers
  connect pc_offerer pc_answerer = record {
    offerer = begin P pc_offerer true;
    answerer = begin P pc_answerer false;
    reached_answerer = [];
    reached_offerer = [];
  }

  abbrev pub at_side : Side → Peers → Transport P
  at_side offerer_side s = s.offerer
  at_side answerer_side s = s.answerer

  -- What the other side has sent so far, and what of it has reached this side.
  abbrev pub sent_to : Side → Peers → List (Message D C)
  sent_to offerer_side s = s.answerer.sent
  sent_to answerer_side s = s.offerer.sent

  abbrev pub reached : Side → Peers → List (Message D C)
  reached offerer_side s = s.reached_offerer
  reached answerer_side s = s.reached_answerer

  module _ (has_local_description : P.State → Bool) where
    -- Each transport's posts reach the other one in order; a peer connection gathers candidates once it
    -- has a local description.
    pub data Step : Peers → Peers → Type 0 where
      offerer_negotiates :
          {s : Peers} → Step s (record s { offerer = on_negotiation_needed P s.offerer })
      answerer_negotiates :
          {s : Peers} → Step s (record s { answerer = on_negotiation_needed P s.answerer })
      offerer_gathers :
          {s : Peers} (c : Option C)
          → has_local_description s.offerer.pc ≡ true
          → Step s (record s { offerer = on_ice_candidate P s.offerer c })
      answerer_gathers :
          {s : Peers} (c : Option C)
          → has_local_description s.answerer.pc ≡ true
          → Step s (record s { answerer = on_ice_candidate P s.answerer c })
      reaches_answerer :
          {s : Peers} (base_url : Payload) (m : Message D C) (rest : List (Message D C))
          → s.offerer.sent ≡ s.reached_answerer ++ m ∷ rest
          → Step s (record s {
            answerer = reach base_url s.answerer m;
            reached_answerer = s.reached_answerer ++ m ∷ [];
          })
      reaches_offerer :
          {s : Peers} (base_url : Payload) (m : Message D C) (rest : List (Message D C))
          → s.answerer.sent ≡ s.reached_offerer ++ m ∷ rest
          → Step s (record s {
            offerer = reach base_url s.offerer m;
            reached_offerer = s.reached_offerer ++ m ∷ [];
          })

    pub data Reach (start : Peers) : Peers → Type 0 where
      at_start : Reach start start
      later : {s t : Peers} → Reach start s → Step s t → Reach start t

    -- What the peer connection promises. `awaits_answer` is its signaling state have-local-offer.
    pub record Promises (awaits_answer : P.State → Bool) : Type 0 where
      pub offer_is_offer :
          (pc : P.State) (d : D) → (P.create_offer pc).1 ≡ some d → P.is_offer d ≡ true
      -- The answers that peers make.
      pub is_answer : D → Bool
      pub answer_kind : (d : D) → is_answer d ≡ true → P.is_offer d ≡ false
      pub told_is_answer :
          (pc : P.State) (d : D)
          → (P.create_answer pc).1 ≡ some d
          → (P.set_local_description d (P.create_answer pc).0).1 ≡ true
          → is_answer (P.local_description (P.set_local_description d (P.create_answer pc).0).0)
            ≡ true
      pub offer_awaits :
          (pc : P.State) (d : D)
          → P.is_offer d ≡ true
          → (P.set_local_description d pc).1 ≡ true
          → awaits_answer (P.set_local_description d pc).0 ≡ true
      pub refused_awaits :
          (pc : P.State) (d : D)
          → (P.set_local_description d pc).1 ≡ false
          → awaits_answer (P.set_local_description d pc).0 ≡ awaits_answer pc
      pub created_awaits : (pc : P.State) → awaits_answer (P.create_offer pc).0 ≡ awaits_answer pc
      pub answer_is_taken :
          (pc : P.State) (d : D)
          → awaits_answer pc ≡ true
          → is_answer d ≡ true
          → (P.set_remote_description d pc).1 ≡ true
      pub created_local :
          (pc : P.State) → has_local_description (P.create_answer pc).0 ≡ has_local_description pc
      pub refused_local :
          (pc : P.State) (d : D)
          → (P.set_local_description d pc).1 ≡ false
          → has_local_description (P.set_local_description d pc).0 ≡ has_local_description pc
      pub remote_local :
          (pc : P.State) (d : D)
          → has_local_description (P.set_remote_description d pc).0 ≡ has_local_description pc
      pub added_local :
          (pc : P.State) (c : Payload)
          → has_local_description (add_ice_candidate c pc).0 ≡ has_local_description pc

  -- A message that reaches a transport is handled by it.
  pub reach-handled :
      ((sd : D) → redecoded F transport_handler (F.marshal sd) ≡ some sd)
      → (base_url : Payload) (t : Transport P) (m : Message D C)
      → reach base_url t m ≡ (handled F transport_handler t m).0
  unfolding reach IsReadable
  reach-handled codec base_url t (session_description sd) =
      ap (λ r. r.0) (send-route F transport_handler base_url t (session_description sd) (codec sd))
  reach-handled codec base_url t (ice_candidate c) =
      ap (λ r. r.0) (send-route F transport_handler base_url t (ice_candidate c) tt)
