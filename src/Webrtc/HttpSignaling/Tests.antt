-- ===== src/Webrtc/HttpSignaling/Tests.antt =====
-- Runs of the signaling over HTTP of webrtc.
use mrtp.Prelude.{
  not, ℕ, zero, suc, ◌≡◌, refl, [], ◌∷◌, ◌++◌, Bool, true, false, Option, none, some,
}
use mrtp.Webrtc.Signaling.{
  session_description, ice_candidate, Peer, Transport, on_negotiation_needed, on_ice_candidate,
  handle_session_description, answer_offer, send_pending,
}
use mrtp.Webrtc.HttpSignaling.{
  Payload, Format, SignalHandler, send, send_session_description, post, route,
  serve_session_description, over_network, redecoded, handled, reported, IsReadable, send-route,
}
use mrtp.Webrtc.HttpSignaling.Peers.{
  transport_handler, reach, Peers, connect, offerer_negotiates, reaches_answerer, answerer_gathers,
  reaches_offerer, Reach, at_start, later, Promises, offerer_side,
}
use mrtp.Webrtc.HttpSignaling.Order.{add_ice_candidate_in_time}

data SignalingState : Type 0 where
  stable : SignalingState
  have_local_offer : SignalingState
  have_remote_offer : SignalingState
  negotiated : SignalingState

-- An offer is `true`, an answer `false`.
abbrev set_local : Bool → SignalingState → SignalingState × Bool
set_local true stable = (have_local_offer, true)
set_local false have_remote_offer = (negotiated, true)
set_local d pc = (pc, false)

abbrev set_remote : Bool → SignalingState → SignalingState × Bool
set_remote true stable = (have_remote_offer, true)
set_remote false have_local_offer = (negotiated, true)
set_remote d pc = (pc, false)

-- Whether the answer is the current local description; the first peer's is its offer.
abbrev kind_of_local : SignalingState → Bool
kind_of_local have_local_offer = true
kind_of_local _ = false

abbrev answers_once : Peer Bool ℕ
answers_once = record {
  State = SignalingState;
  is_offer = λ d. d;
  create_offer = λ s. (s, some true);
  create_answer = λ s. (s, some false);
  set_local_description = set_local;
  set_remote_description = set_remote;
  local_description = kind_of_local;
  accepts = λ ms m. true;
}

abbrev encode : Bool → Option Payload
encode true = some (1 ∷ [])
encode false = some (0 ∷ [])

abbrev decode : Payload → Option Bool
decode (zero ∷ []) = some false
decode (suc n ∷ []) = some true
decode _ = none

abbrev format : Format Bool ℕ
format = record { marshal = encode; decode = decode; text = λ c. c ∷ [] }

abbrev add : Payload → SignalingState → SignalingState × Bool
add candidate pc = (pc, true)

abbrev has_local : SignalingState → Bool
has_local have_local_offer = true
has_local negotiated = true
has_local _ = false

abbrev awaits : SignalingState → Bool
awaits have_local_offer = true
awaits _ = false

pc-Promises : Promises answers_once format add has_local awaits
pc-Promises = record {
  offer_is_offer = λ pc d e. cc;
  is_answer = not;
  answer_kind = kinds;
  told_is_answer = told;
  offer_awaits = waits;
  refused_awaits = refused;
  created_awaits = λ pc. refl;
  answer_is_taken = taken;
  created_local = λ pc. refl;
  refused_local = refused_local;
  remote_local = remote_local;
  added_local = λ pc c. refl;
}
  where
    kinds : (d : Bool) → not d ≡ true → d ≡ false
    kinds true e = absurd cc
    kinds false e = refl

    told :
        (pc : SignalingState) (d : Bool)
        → some false ≡ some d
        → (set_local d pc).1 ≡ true
        → not (kind_of_local (set_local d pc).0) ≡ true
    told stable true made e = absurd cc
    told stable false made e = absurd cc
    told have_local_offer true made e = absurd cc
    told have_local_offer false made e = absurd cc
    told have_remote_offer true made e = absurd cc
    told have_remote_offer false made e = refl
    told negotiated true made e = absurd cc
    told negotiated false made e = absurd cc

    waits :
        (pc : SignalingState) (d : Bool)
        → d ≡ true
        → (set_local d pc).1 ≡ true
        → awaits (set_local d pc).0 ≡ true
    waits stable true e set = refl
    waits stable false e set = absurd cc
    waits have_local_offer true e set = absurd cc
    waits have_local_offer false e set = absurd cc
    waits have_remote_offer true e set = absurd cc
    waits have_remote_offer false e set = absurd cc
    waits negotiated true e set = absurd cc
    waits negotiated false e set = absurd cc

    refused :
        (pc : SignalingState) (d : Bool)
        → (set_local d pc).1 ≡ false
        → awaits (set_local d pc).0 ≡ awaits pc
    refused stable true e = absurd cc
    refused stable false e = refl
    refused have_local_offer true e = refl
    refused have_local_offer false e = refl
    refused have_remote_offer true e = refl
    refused have_remote_offer false e = absurd cc
    refused negotiated true e = refl
    refused negotiated false e = refl

    taken :
        (pc : SignalingState) (d : Bool)
        → awaits pc ≡ true
        → not d ≡ true
        → (set_remote d pc).1 ≡ true
    taken stable true w e = absurd cc
    taken stable false w e = absurd cc
    taken have_local_offer true w e = absurd cc
    taken have_local_offer false w e = refl
    taken have_remote_offer true w e = absurd cc
    taken have_remote_offer false w e = absurd cc
    taken negotiated true w e = absurd cc
    taken negotiated false w e = absurd cc

    refused_local :
        (pc : SignalingState) (d : Bool)
        → (set_local d pc).1 ≡ false
        → has_local (set_local d pc).0 ≡ has_local pc
    refused_local stable true e = absurd cc
    refused_local stable false e = refl
    refused_local have_local_offer true e = refl
    refused_local have_local_offer false e = refl
    refused_local have_remote_offer true e = refl
    refused_local have_remote_offer false e = absurd cc
    refused_local negotiated true e = refl
    refused_local negotiated false e = refl

    remote_local : (pc : SignalingState) (d : Bool) → has_local (set_remote d pc).0 ≡ has_local pc
    remote_local stable true = refl
    remote_local stable false = refl
    remote_local have_local_offer true = refl
    remote_local have_local_offer false = refl
    remote_local have_remote_offer true = refl
    remote_local have_remote_offer false = refl
    remote_local negotiated true = refl
    remote_local negotiated false = refl

abbrev handler : SignalHandler Bool (Transport answers_once)
handler = transport_handler answers_once format add

codec : (sd : Bool) → redecoded format handler (encode sd) ≡ some sd
codec true = refl
codec false = refl

abbrev TestPeers : Type 0
TestPeers = Peers answers_once format add

abbrev start : TestPeers
start = connect answers_once format add stable stable

abbrev offered : TestPeers
offered = record start { offerer = on_negotiation_needed answers_once start.offerer }

abbrev described : TestPeers
described = record offered {
  answerer = reach answers_once format add [] offered.answerer (session_description true);
  reached_answerer = session_description true ∷ [];
}

abbrev gathered : TestPeers
gathered = record described { answerer = on_ice_candidate answers_once described.answerer (some 7) }

abbrev answered : TestPeers
answered = record gathered {
  offerer = reach answers_once format add [] gathered.offerer (session_description false);
  reached_offerer = session_description false ∷ [];
}

to_answered : Reach answers_once format add has_local start answered
unfolding on_negotiation_needed on_ice_candidate reach handle_session_description answer_offer
    send_pending send_session_description post route serve_session_description
to_answered =
    later
      (later
        (later (later at_start offerer_negotiates)
          (reaches_answerer [] (session_description true) [] refl))
        (answerer_gathers (some 7) refl))
      (reaches_offerer [] (session_description false) (ice_candidate 7 ∷ []) refl)

seven_is_next : answered.answerer.sent ≡ answered.reached_offerer ++ ice_candidate 7 ∷ []
unfolding on_negotiation_needed on_ice_candidate reach handle_session_description answer_offer
    send_pending send_session_description post route serve_session_description
seven_is_next = refl

add_ice_candidate_in_time_example : answered.offerer.has_remote_description ≡ true
add_ice_candidate_in_time_example =
    add_ice_candidate_in_time pc-Promises codec stable stable refl to_answered offerer_side 7 []
      seven_is_next

readable : IsReadable format handler (session_description true)
unfolding IsReadable
readable = refl

send-route_example :
    send format (over_network format handler) [] start.answerer (session_description true) ≡ (
      (handled format handler start.answerer (session_description true)).0,
      reported format handler (handled format handler start.answerer (session_description true)).1,
    )
send-route_example = send-route format handler [] start.answerer (session_description true) readable
