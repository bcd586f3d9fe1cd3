-- ===== src/Http/Server/Tests.antt =====
-- A server of http/server.go with its default settings.
use mrtp.Prelude.{ℕ, ◌≡◌, inl, inr, refl, List, [], ◌∷◌, Option, some, ltb, if◌then◌else◌}
use mrtp.Http.Server.{
  Text, Request, sets_alt_svc, serves, given, Handler, ServerOption, h2_address, h3_address, handle,
  certificate, Server, Network, redirect_http, new_server,
}
use mrtp.Http.Server.Handlers.{answer, new_server-answer}

-- The first sign of an address is its port.
abbrev first_sign : Text → Option (Text × Text)
first_sign [] = some ([], [])
first_sign (c ∷ cs) = some (cs, c ∷ [])

abbrev number_of : Text → Option ℕ
number_of [] = some 0
number_of (c ∷ cs) = some c

abbrev net : Network
net = record {
  split_host_port = first_sign;
  lookup_port = number_of;
  join_host_port = λ host port. port;
  load_key_pair = λ cert key. some 0;
}

abbrev options : List ServerOption
options = certificate 1 ∷ h2_address (8 ∷ []) ∷ h3_address (9 ∷ []) ∷ handle (given 5) ∷ []

new_server-answer_example :
    (s : Server) × ((new_server net options ≡ inr s)
      × ((h : Handler) × ((s.h2.handler ≡ some h)
            × ((s.h3.handler ≡ some h)
                × ((s.h1.handler ≡ some (redirect_http net (8 ∷ [])))
                    × ((r : Request)
                        → answer (h r) ≡ (
                            if ltb r.proto_major 3
                            then sets_alt_svc 9 ∷ serves (given 5) r ∷ []
                            else serves (given 5) r ∷ [])))))))
new_server-answer_example =
    new_server-answer net options 9 [] (8 ∷ []) refl refl refl (1, inl refl) refl refl
