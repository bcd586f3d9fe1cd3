-- ===== src/Http/Server/Handlers.antt =====
-- What the servers that `NewServer` of http/server.go makes do with a request.
use mrtp.Prelude.{
  ℕ, ◌≡◌, refl, List, [], ◌∷◌, true, Bool-cases, none, some, ltb, ◌⊎◌, inl, inr, if◌then◌else◌,
}
use mrtp.Http.Server.{
  Text, Request, Action, logs, sets_alt_svc, serves, Handler, ServerOption, Server, default_server,
  set_options, Network, port_of, set_alt_svc_header, redirect_http, with_tls, wrapped,
  with_handlers, with_redirect, new_server,
}

-- What goes out to the client: the log is left out.
abbrev pub answer : List Action → List Action
answer [] = []
answer (logs ∷ rest) = answer rest
answer (a ∷ rest) = a ∷ answer rest

module _ (net : Network) where
  -- A certificate was given or can be read.
  abbrev pub HasCertificate : Server → Type 0
  HasCertificate s =
      (c : ℕ) × ((s.certificates ≡ some c)
        ⊎ ((s.certificates ≡ none) × (net.load_key_pair s.cert_file s.key_file ≡ some c)))

  abbrev with_certificate : Server → ℕ → Server
  with_certificate s c = record s {
    certificates = some c;
    h2 = record s.h2 { has_tls = true };
    h3 = record s.h3 { has_tls = true };
  }

  with_tls_certificate :
      (s : Server)
      → s.enable_h2 ≡ true
      → HasCertificate s
      → (c : ℕ) × (with_tls net s ≡ inr (with_certificate s c))
  unfolding with_tls
  with_tls_certificate s on (c, inl h) = (c, simp (with_tls, on, h))
  with_tls_certificate s on (c, inr (n, h)) = (c, simp (with_tls, on, n, h))

  wrapped-answer :
      (s : Server) (port : ℕ) (r : Request)
      → s.enable_h3 ≡ true
      → port_of net s.h3.addr ≡ some port
      → answer (wrapped net s r) ≡ (
          if ltb r.proto_major 3
          then sets_alt_svc port ∷ serves s.mux r ∷ []
          else serves s.mux r ∷ [])
  unfolding wrapped set_alt_svc_header
  wrapped-answer s port r on p = elim (Bool-cases s.has_request_logger) [
    | inl l ↦ elim (Bool-cases (ltb r.proto_major 3)) [
      | inl e ↦ simp (wrapped, set_alt_svc_header, on, p, l, e)
      | inr e ↦ simp (wrapped, set_alt_svc_header, on, p, l, e)
    ]
    | inr l ↦ elim (Bool-cases (ltb r.proto_major 3)) [
      | inl e ↦ simp (wrapped, set_alt_svc_header, on, p, l, e)
      | inr e ↦ simp (wrapped, set_alt_svc_header, on, p, l, e)
    ]
  ]

-- With HTTP/2, HTTP/3 and the redirection on, a certificate that is given or can be read, and addresses
-- whose ports are found: `NewServer` succeeds; HTTP/2 and HTTP/3 share a handler that hands every request
-- on exactly once, after the Alt-Svc header with the port of HTTP/3 for versions below 3 and only for
-- those, and HTTP/1 has the handler that redirects to the port of HTTP/2.
pub new_server-answer :
    (net : Network) (os : List ServerOption) (port : ℕ) (host h2_port : Text)
    → (set_options os default_server).enable_h2 ≡ true
    → (set_options os default_server).enable_h3 ≡ true
    → (set_options os default_server).redirect_h1 ≡ true
    → HasCertificate net (set_options os default_server)
    → port_of net (set_options os default_server).h3.addr ≡ some port
    → net.split_host_port (set_options os default_server).h2.addr ≡ some (host, h2_port)
    → (s : Server) × ((new_server net os ≡ inr s)
        × ((h : Handler) × ((s.h2.handler ≡ some h)
              × ((s.h3.handler ≡ some h)
                  × ((s.h1.handler ≡ some (redirect_http net h2_port))
                      × ((r : Request)
                          → answer (h r) ≡ (
                              if ltb r.proto_major 3
                              then sets_alt_svc port
                                ∷ serves (set_options os default_server).mux r
                                ∷ []
                              else serves (set_options os default_server).mux r ∷ [])))))))
unfolding new_server with_handlers with_redirect
new_server-answer net os port host h2_port on2 on3 redirect certificate p q =
    let s0 = set_options os default_server in
    let (c, e) = with_tls_certificate net s0 on2 certificate in
    let s1 = with_certificate net s0 c in
    let h = wrapped net s1 in
    let s2 = record s1 {
      h1 = record s1.h1 { handler = some (redirect_http net h2_port) };
      h2 = record s1.h2 { handler = some h };
      h3 = record s1.h3 { handler = some h };
    } in
    (
      s2,
      (
        simp (new_server, e, with_handlers, with_redirect, on2, on3, redirect, q),
        (h, (refl, (refl, (refl, λ r. wrapped-answer net s1 port r on3 p)))),
      ),
    )
