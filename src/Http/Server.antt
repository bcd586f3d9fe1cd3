-- ===== src/Http/Server.antt =====
-- http/server.go: the options, `NewServer` and the handlers it puts around the given one. What net, net/http and
-- crypto/tls do with addresses, ports and key files are parameters. `ListenAndServe` is not modelled.
pub mod Handlers
mod Tests
use mrtp.Prelude.{
  ℕ, List, [], ◌∷◌, Bool, true, false, Option, none, some, ltb, ◌||◌, not, ◌⊎◌, inl, inr,
  if◌then◌else◌,
}

-- Texts of addresses, hosts and files.
abbrev pub Text : Type 0
Text = List ℕ

-- `http.DefaultServeMux`, or a handler that was given, by its number.
pub data Mux : Type 0 where
  default_mux : Mux
  given : ℕ → Mux

-- A request, with what its URL has besides the host and the scheme.
pub record Request : Type 0 where
  pub proto_major : ℕ
  pub host : Text
  pub rest : Text

-- What a handler does with a request and its response, in order.
pub data Action : Type 0 where
  logs : Action
  sets_alt_svc : ℕ → Action
  serves : Mux → Request → Action
  fails_bad_request : Action
  redirects : Text → Text → Action

abbrev pub Handler : Type 0
Handler = Request → List Action

pub data ServerOption : Type 0 where
  h1_address : Text → ServerOption
  h2_address : Text → ServerOption
  h3_address : Text → ServerOption
  handle : Mux → ServerOption
  request_logger : ServerOption
  certificate : ℕ → ServerOption
  certificate_file : Text → ServerOption
  certificate_key_file : Text → ServerOption
  listen_h2 : Bool → ServerOption
  listen_h3 : Bool → ServerOption
  redirect_h1_to_h3 : Bool → ServerOption

-- `http.Server` and `http3.Server`.
pub record Listener : Type 0 where
  pub addr : Text
  pub has_tls : Bool
  pub handler : Option Handler

pub record Server : Type 0 where
  pub cert_file : Text
  pub key_file : Text
  pub enable_h2 : Bool
  pub enable_h3 : Bool
  pub redirect_h1 : Bool
  pub has_request_logger : Bool
  pub mux : Mux
  pub certificates : Option ℕ
  pub h1 : Listener
  pub h2 : Listener
  pub h3 : Listener

abbrev pub no_listener : Listener
no_listener = record { addr = []; has_tls = false; handler = none }

abbrev pub default_server : Server
default_server = record {
  cert_file = [];
  key_file = [];
  enable_h2 = true;
  enable_h3 = true;
  redirect_h1 = true;
  has_request_logger = false;
  mux = default_mux;
  certificates = none;
  h1 = no_listener;
  h2 = no_listener;
  h3 = no_listener;
}

abbrev pub set_option : ServerOption → Server → Server
set_option (h1_address a) s = record s { h1 = record s.h1 { addr = a } }
set_option (h2_address a) s = record s { h2 = record s.h2 { addr = a } }
set_option (h3_address a) s = record s { h3 = record s.h3 { addr = a } }
set_option (handle m) s = record s { mux = m }
set_option request_logger s = record s { has_request_logger = true }
set_option (certificate c) s = record s { certificates = some c }
set_option (certificate_file f) s = record s { cert_file = f }
set_option (certificate_key_file f) s = record s { key_file = f }
set_option (listen_h2 enabled) s = record s { enable_h2 = enabled }
set_option (listen_h3 enabled) s = record s { enable_h3 = enabled }
set_option (redirect_h1_to_h3 enabled) s = record s { redirect_h1 = enabled }

abbrev pub set_options : List ServerOption → Server → Server
set_options [] s = s
set_options (o ∷ os) s = set_options os (set_option o s)

pub data ServerError : Type 0 where
  bad_certificate : ServerError
  bad_address : ServerError

-- `net.SplitHostPort`, `net.LookupPort`, `net.JoinHostPort` and `tls.LoadX509KeyPair`.
pub record Network : Type 0 where
  pub split_host_port : Text → Option (Text × Text)
  pub lookup_port : Text → Option ℕ
  pub join_host_port : Text → Text → Text
  pub load_key_pair : Text → Text → Option ℕ

module _ (net : Network) where
  open net use {split_host_port, lookup_port, join_host_port, load_key_pair}

  -- The port of an address as a number, where both calls succeed.
  abbrev pub port_of : Text → Option ℕ
  port_of addr = elim (split_host_port addr) [ none ↦ none | some (host, port) ↦ lookup_port port ]

  unfoldable pub set_alt_svc_header : Text → Handler → Handler
  set_alt_svc_header h3_addr next = elim (port_of h3_addr) [
    | none ↦ next
    | some port ↦ λ r. if ltb r.proto_major 3 then sets_alt_svc port ∷ next r else next r
  ]

  abbrev pub log_request : Handler → Handler
  log_request next r = logs ∷ next r

  -- The answer is a move to the same URL with the scheme https and the given port.
  unfoldable pub redirect_http : Text → Handler
  redirect_http port r = elim (split_host_port r.host) [
    | none ↦ fails_bad_request ∷ []
    | some (host, old_port) ↦ redirects (join_host_port host port) r.rest ∷ []
  ]

  -- The certificates are read where TLS needs them and none were given.
  unfoldable pub with_tls : Server → ServerError ⊎ Server
  with_tls s = elim (s.enable_h2 || s.enable_h3) [
    | false ↦ inr s
    | true ↦ elim s.certificates [
      | some c ↦
          inr
            (record s { h2 = record s.h2 { has_tls = true }; h3 = record s.h3 { has_tls = true } })
      | none ↦ elim (load_key_pair s.cert_file s.key_file) [
        | none ↦ inl bad_certificate
        | some c ↦ inr (record s {
          certificates = some c;
          h2 = record s.h2 { has_tls = true };
          h3 = record s.h3 { has_tls = true };
        })
      ]
    ]
  ]

  -- The given handler with the header of HTTP/3 and the log around it.
  unfoldable pub wrapped : Server → Handler
  wrapped s =
      let inner = (λ (r : Request). serves s.mux r ∷ []) in
      let alt = if s.enable_h3 then set_alt_svc_header s.h3.addr inner else inner in
      if s.has_request_logger then log_request alt else alt

  unfoldable pub with_handlers : Server → Server
  with_handlers s = record s {
    h1 = record s.h1 { handler = some (wrapped s) };
    h2 = if s.enable_h2 then record s.h2 { handler = some (wrapped s) } else s.h2;
    h3 = if s.enable_h3 then record s.h3 { handler = some (wrapped s) } else s.h3;
  }

  unfoldable pub with_redirect : Server → ServerError ⊎ Server
  with_redirect s = elim s.redirect_h1 [
    | false ↦ inr s
    | true ↦ elim (split_host_port s.h2.addr) [
      | none ↦ inl bad_address
      | some (host, port) ↦
          inr (record s { h1 = record s.h1 { handler = some (redirect_http port) } })
    ]
  ]

  -- `NewServer`.
  unfoldable pub new_server : List ServerOption → ServerError ⊎ Server
  new_server options = elim (with_tls (set_options options default_server)) [
    | inl e ↦ inl e
    | inr s ↦ with_redirect (with_handlers s)
  ]
