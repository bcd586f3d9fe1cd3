-- ===== src/Webrtc/HttpSignaling.antt =====
-- webrtc/http_client.go and webrtc/http_signaling_handler.go, with the routes of subcmd/webrtc.go: how
-- session descriptions and ICE candidates go from one peer to the other in HTTP requests. net/http,
-- encoding/json and pion's text of a candidate are parameters.
mod Tests
pub mod Peers
pub mod Offerer
pub mod Answerer
pub mod Delivered
pub mod Order
use mrtp.Prelude.{
  ℕ, ◌≡◌, refl, List, Option, none, some, inl, inr, Option-cases, Bool, leb, if◌then◌else◌, arith,
}
use mrtp.Webrtc.Signaling.{Message, session_description, ice_candidate}

abbrev pub Payload : Type 0
Payload = List ℕ

-- The path of a request.
pub data Endpoint : Type 0 where
  candidate_path : Endpoint
  session_description_path : Endpoint

pub record Request : Type 0 where
  pub base_url : Payload
  pub endpoint : Endpoint
  pub body : Payload

pub data PostError : Type 0 where
  not_marshalled : PostError
  not_posted : PostError
  failed_with : ℕ → PostError

-- json.Marshal and json.Decoder on session descriptions, and `ToJSON().Candidate`.
pub record Format (Description Candidate : Type 0) : Type 0 where
  pub marshal : Description → Option Payload
  pub decode : Payload → Option Description
  pub text : Candidate → Payload

-- What handles the messages at the receiving side; `some` is an error.
pub record SignalHandler (Description S : Type 0) : Type 1 where
  pub Error : Type 0
  pub handle_session_description : S → Description → S × Option Error
  pub handle_ice_candidate : S → Payload → S × Option Error

-- The client; `http_post` is `http.Post`, which returns a status or an error.
module _ {D C W : Type 0} (F : Format D C) (http_post : W → Request → W × Option ℕ)
    (base_url : Payload) where
  unfoldable pub post : W → Endpoint → Payload → W × Option PostError
  post w endpoint payload =
      let request : Request = record { base_url = base_url; endpoint = endpoint; body = payload } in
      let (w₁, response) = http_post w request in
      elim response [
        | none ↦ (w₁, some not_posted)
        | some status_code ↦
            (w₁, if leb 400 status_code then some (failed_with status_code) else none)
      ]

  unfoldable pub send_ice_candidate : W → C → W × Option PostError
  send_ice_candidate w c = post w candidate_path (F.text c)

  unfoldable pub send_session_description : W → D → W × Option PostError
  send_session_description w sd = elim (F.marshal sd) [
    | none ↦ (w, some not_marshalled)
    | some payload ↦ post w session_description_path payload
  ]

  abbrev pub send : W → Message D C → W × Option PostError
  send w (session_description sd) = send_session_description w sd
  send w (ice_candidate c) = send_ice_candidate w c

-- The server; a body of `none` is one that cannot be read.
module _ {D C S : Type 0} (F : Format D C) (sh : SignalHandler D S) where
  abbrev status_of : Option sh.Error → ℕ
  status_of none = 200
  status_of (some e) = 400

  unfoldable pub serve_session_description : S → Option Payload → S × ℕ
  serve_session_description s none = (s, 400)
  serve_session_description s (some body) = elim (F.decode body) [
    | none ↦ (s, 400)
    | some sdp ↦ let (s₁, error) = sh.handle_session_description s sdp in (s₁, status_of error)
  ]

  unfoldable pub serve_candidate : S → Option Payload → S × ℕ
  serve_candidate s none = (s, 400)
  serve_candidate s (some body) =
      let (s₁, error) = sh.handle_ice_candidate s body in (s₁, status_of error)

  unfoldable pub route : S → Endpoint → Option Payload → S × ℕ
  route s candidate_path body = serve_candidate s body
  route s session_description_path body = serve_session_description s body

  -- `http.Post` to that server over a network that loses nothing.
  abbrev pub over_network : S → Request → S × Option ℕ
  over_network s request =
      let (s₁, status) = route s request.endpoint (some request.body) in (s₁, some status)

  -- What the handler does with a message that reaches it, and whether it fails.
  abbrev pub handled : S → Message D C → S × Option sh.Error
  handled s (session_description sd) = sh.handle_session_description s sd
  handled s (ice_candidate c) = sh.handle_ice_candidate s (F.text c)

  abbrev pub reported : Option sh.Error → Option PostError
  reported none = none
  reported (some e) = some (failed_with 400)

  -- What the decoder makes of what the encoder wrote.
  abbrev pub redecoded : Option Payload → Option D
  redecoded none = none
  redecoded (some payload) = F.decode payload

  -- That a session description in the message survives the encoding.
  unfoldable pub IsReadable : Message D C → Type 0
  IsReadable (session_description sd) = redecoded (F.marshal sd) ≡ some sd
  IsReadable (ice_candidate c) = Unit {0}

  -- Whatever message one peer's client posts to the other peer's server, over a network that loses
  -- nothing, the server's handler of that kind of message gets it, once; and the client reports an error
  -- (status 400) exactly where the handler does. Descriptions must survive the JSON encoding.
  pub send-route :
      (base_url : Payload) (s : S) (m : Message D C)
      → IsReadable m
      → send F over_network base_url s m ≡ ((handled s m).0, reported (handled s m).1)
  unfolding IsReadable send_ice_candidate send_session_description post route serve_candidate
      serve_session_description
  send-route base_url s (session_description sd) readable = elim (Option-cases (F.marshal sd)) [
    | inl e ↦ absurd (cc (simp (e) at readable))
    | inr (payload, e) ↦
        let read : F.decode payload ≡ some sd = (simp (e) at readable) in
        elim (Option-cases (sh.handle_session_description s sd).1) [
          | inl x ↦ simp (send_session_description, e, post, serve_session_description, read, x)
          | inr (error, x) ↦
              simp (send_session_description, e, post, serve_session_description, read, x)
        ]
  ]
  send-route base_url s (ice_candidate c) readable =
      elim (Option-cases (sh.handle_ice_candidate s (F.text c)).1) [
        | inl x ↦ rw x
        | inr (error, x) ↦ rw x
      ]
