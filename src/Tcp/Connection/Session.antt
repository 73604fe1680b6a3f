-- ===== src/Tcp/Connection/Session.antt =====
-- A connection on which a client sends requests one after the other: each is answered once, in
-- order, and the engine goes through the operations of the requests.
use rkvs.Base.{ℕ, ◌≡◌, ◌∙◌, List, [], ◌∷◌, ◌++◌, length, true, Option, none, some, Text, ◌>>=◌}
use rkvs.Tcp.Uuid.{UuidCrate, UuidLaws, length-swap_fields}
use rkvs.Tcp.Store.{Store, EngineResult, value, failure}
use rkvs.Tcp.Protocol.Types.{TcpRequest, TcpResponse, RequestType}
use rkvs.Tcp.Protocol.Parse.{id_read_back}
use rkvs.Tcp.Protocol.RoundTrip.{request_layout}
use rkvs.Tcp.Protocol.Response.{not_found, from_value, from_internal_error}
use rkvs.Tcp.Protocol.ResponseLaws.{response_layout}
use rkvs.Tcp.Connection.{Turn, read_done}

-- A get that finds no value fails.
abbrev pub missing_is_failure : EngineResult → EngineResult
missing_is_failure (value none) = failure not_found
missing_is_failure (value (some v)) = value (some v)
missing_is_failure (failure e) = failure e

-- The response to what the engine returned.
abbrev pub response_to : {U : Type 0} → U → EngineResult → TcpResponse U
response_to id (value v) = from_value id v
response_to id (failure e) = from_internal_error id e

module _ (c : UuidCrate) (laws : UuidLaws c) {S : Type 0} (store : Store S) where
  -- What a request asks of the store; a put without a value is no request that can be sent.
  abbrev pub answer : RequestType → Text → Option Text → S → EngineResult × S
  answer RequestType.delete key v s = store.delete s key
  answer RequestType.get key v s = (missing_is_failure (store.get s key).0, (store.get s key).1)
  answer RequestType.put key none s = (value none, s)
  answer RequestType.put key (some v) s = store.put s key v

  -- The engine's result on a request, and its next state.
  abbrev pub reply : TcpRequest c.Uuid → S → EngineResult × S
  reply r s = answer r.headers.request_type r.payload.key r.payload.value s

  abbrev pub engine_after : S → List (TcpRequest c.Uuid) → S
  engine_after s [] = s
  engine_after s (r ∷ rs) = engine_after (reply r s).1 rs

  -- The bytes of the responses, each with the id that the server read.
  abbrev pub responses : S → List (TcpRequest c.Uuid) → List ℕ
  responses s [] = []
  responses s (r ∷ rs) =
      response_layout c (response_to (id_read_back c r.headers.correlation_id) (reply r s).0)
      ++ responses (reply r s).1 rs

  abbrev pub requests : List (TcpRequest c.Uuid) → List ℕ
  requests [] = []
  requests (r ∷ rs) = request_layout c r ++ requests rs

  -- One turn for each request: its bytes arrive, and the response can be written.
  abbrev pub turns : List (TcpRequest c.Uuid) → List Turn
  turns [] = []
  turns (r ∷ rs) = record { select = read_done; write_ok = true } ∷ turns rs

  pub length-to_bytes_le : (u : c.Uuid) → length (c.to_bytes_le u) ≡ 16
  length-to_bytes_le u = rw (laws.to_bytes_le_lem u) (length-swap_fields _ ∙ laws.length-as_bytes u)
