-- ===== src/Quic/Connection.antt =====
-- The connection of internal/quictransport/transport.go: its options, `New`, `Close` and the two loops that
-- hand incoming streams and datagrams on; internal/quictransport/role.go. quic-go and quicvarint are parameters.
use mrtp.Prelude.{ℕ, suc, List, [], ◌∷◌, ◌++◌, Bool, true, false, Option, none, some, if◌then◌else◌}

-- `Role`.
pub data Role : Type 0 where
  role_server : Role
  role_client : Role

-- `fmt.Sprintf("%s:%d", address, port)`.
abbrev pub Address : Type 0
Address = List ℕ × ℕ

-- What `New` opens, and from where.
pub data Opening : Type 0 where
  server_with_net : ℕ → Opening
  server_at : Address → Opening
  client_with_net : Address → ℕ → Opening
  client_to : Address → Opening

-- Network connections, estimators and labels are known by numbers; `pacing_factor` is the number of the
-- function, 0 for the one that is always 1.
pub record Settings : Type 0 where
  pub role : Role
  pub net_conn : Option ℕ
  pub local_address : Option Address
  pub remote_address : Option Address
  pub pacing_factor : ℕ
  pub bwe : Option ℕ
  pub qlog_label : List ℕ

pub data ConnectionOption : Type 0 where
  set_bwe : ℕ → ConnectionOption
  with_role : Role → ConnectionOption
  set_net_conn : ℕ → ConnectionOption
  set_local_address : List ℕ → ℕ → ConnectionOption
  set_remote_address : List ℕ → ℕ → ConnectionOption
  set_pacing_factor : ℕ → ConnectionOption
  set_qlog_label : List ℕ → ConnectionOption

abbrev pub set_connection_option : ConnectionOption → Settings → Settings
set_connection_option (set_bwe b) t = record t { bwe = some b }
set_connection_option (with_role r) t = record t { role = r }
set_connection_option (set_net_conn n) t = record t { net_conn = some n }
set_connection_option (set_local_address a p) t = record t { local_address = some (a, p) }
set_connection_option (set_remote_address a p) t = record t { remote_address = some (a, p) }
set_connection_option (set_pacing_factor f) t = record t { pacing_factor = f }
set_connection_option (set_qlog_label l) t = record t { qlog_label = l }

abbrev pub set_connection_options : List ConnectionOption → Settings → Settings
set_connection_options [] t = t
set_connection_options (o ∷ os) t = set_connection_options os (set_connection_option o t)

abbrev pub default_settings : Settings
default_settings = record {
  role = role_server;
  net_conn = none;
  local_address = none;
  remote_address = none;
  pacing_factor = 0;
  bwe = none;
  qlog_label = [];
}

-- The empty address where none was set.
abbrev pub address_of : Option Address → Address
address_of none = ([], 0)
address_of (some a) = a

-- The branches of `New`.
unfoldable pub opening_of : Settings → Opening
opening_of t = elim t.role [
  | role_server ↦ elim t.net_conn [
    | some n ↦ server_with_net n
    | none ↦ server_at (address_of t.local_address)
  ]
  | role_client ↦ elim t.net_conn [
    | some n ↦ client_with_net (address_of t.remote_address) n
    | none ↦ client_to (address_of t.remote_address)
  ]
]

-- `quic_conn` and `has_quic_transport` say whether these pointers are nil; `closes` counts the calls of
-- their `Close` functions.
pub record Connection : Type 0 where
  pub settings : Settings
  pub running : Bool
  pub quic_conn : Option ℕ
  pub has_quic_transport : Bool
  pub conn_closes : ℕ
  pub transport_closes : ℕ

abbrev pub uses_net : Opening → Bool
uses_net (server_with_net n) = true
uses_net (client_with_net a n) = true
uses_net _ = false

-- `New`; `none` is the error of `open_conn`.
unfoldable pub new_connection : (Opening → Option ℕ) → List ConnectionOption → Option Connection
new_connection open_conn options =
    let t = set_connection_options options default_settings in
    elim (open_conn (opening_of t)) [
      | none ↦ none
      | some conn ↦ some (record {
        settings = t;
        running = true;
        quic_conn = some conn;
        has_quic_transport = uses_net (opening_of t);
        conn_closes = 0;
        transport_closes = 0;
      })
    ]

unfoldable pub close_connection : Connection → Connection
close_connection t = record t {
  running = false;
  conn_closes = elim t.quic_conn [ none ↦ t.conn_closes | some c ↦ suc t.conn_closes ];
  transport_closes = if t.has_quic_transport then suc t.transport_closes else t.transport_closes;
}

-- How a loop stands: more may come in, it has returned, or it has panicked.
pub data LoopEnd : Type 0 where
  awaits : LoopEnd
  has_returned : LoopEnd
  has_panicked : LoopEnd

-- A call of `ReceiveDatagram`, with whether `running` was set before it.
pub data Datagram : Type 0 where
  datagram : List ℕ → Datagram
  no_datagram : Datagram

-- `parse` is `quicvarint.Parse`, without the length. `handed` are the calls of `HandleDatagram`, if it is set.
unfoldable pub receive_datagrams :
    (List ℕ → Option ℕ)
    → Bool
    → List (Bool × Datagram)
    → List (ℕ × List ℕ)
    → List (ℕ × List ℕ) × LoopEnd
receive_datagrams parse has_handler [] handed = (handed, awaits)
receive_datagrams parse has_handler ((running, no_datagram) ∷ ds) handed = (handed, has_returned)
receive_datagrams parse has_handler ((running, datagram d) ∷ ds) handed =
    let flow = parse d in
    let rest = (λ (f : ℕ).
      receive_datagrams parse has_handler ds
        (if has_handler then handed ++ (f, d) ∷ [] else handed)) in
    if running
    then elim flow [ none ↦ (handed, has_panicked) | some f ↦ rest f ]
    else (handed, has_returned)

-- A call of `AcceptUniStream`, and what `quicvarint.Read` finds on the stream: a flow, that the stream was
-- cancelled, or another error.
pub data UniStream : Type 0 where
  flow_stream : ℕ → ℕ → UniStream
  cancelled_stream : UniStream
  broken_stream : UniStream
  no_stream : UniStream

-- The goroutines that are started for `HandleUniStream`, each with its flow and its stream.
unfoldable pub receive_uni_streams :
    Bool → List (Bool × UniStream) → List (ℕ × ℕ) → List (ℕ × ℕ) × LoopEnd
receive_uni_streams has_handler [] started = (started, awaits)
receive_uni_streams has_handler ((false, s) ∷ ss) started = (started, has_returned)
receive_uni_streams has_handler ((true, no_stream) ∷ ss) started = (started, has_returned)
receive_uni_streams has_handler ((true, broken_stream) ∷ ss) started = (started, has_panicked)
receive_uni_streams has_handler ((true, cancelled_stream) ∷ ss) started =
    receive_uni_streams has_handler ss started
receive_uni_streams has_handler ((true, flow_stream flow rs) ∷ ss) started =
    receive_uni_streams has_handler ss (if has_handler then started ++ (flow, rs) ∷ [] else started)
