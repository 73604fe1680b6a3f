-- ===== src/Tcp/Protocol/Response.antt =====
-- `TcpResponse` and the response codes of src/tcp/protocol.rs and src/storage_engine.rs.
use rkvs.Base.{
  ℕ, ◌+◌, List, [], ◌∷◌, Option, none, some, length, Outcome, ok, ◌>>=◌, zeroed, copy_to, Text,
}
use rkvs.Tcp.Uuid.{UuidCrate}
use rkvs.Tcp.Protocol.Types.{
  TcpResponse, TcpError, ParseError, parse, connection, timed_out, io_error, wrong_magic_bytes,
  unsupported_version, invalid_request_type, missing_value, invalid_key, invalid_value,
  unknown_flags, malformed_payload,
}

-- StorageEngineError of src/storage_engine.rs
pub data StorageEngineError : Type 0 where
  io_failure not_found shutdown : StorageEngineError

-- StorageEngineError::to_rc
unfoldable pub engine_rc : StorageEngineError → ℕ
engine_rc io_failure = 1
engine_rc not_found = 2
engine_rc shutdown = 3

-- TcpError::to_rc
unfoldable pub tcp_rc : {U : Type 0} → TcpError U → ℕ
tcp_rc (parse (invalid_key _)) = 4
tcp_rc (parse (invalid_value _)) = 5
tcp_rc (parse (missing_value _)) = 6
tcp_rc (parse (malformed_payload _)) = 7
tcp_rc (parse (invalid_request_type _)) = 8
tcp_rc (parse (unknown_flags _)) = 9
tcp_rc (parse (unsupported_version _)) = 10
tcp_rc (connection (io_error _)) = 255
tcp_rc (connection timed_out) = 11
tcp_rc (connection wrong_magic_bytes) = 255

unfoldable pub extract_correlation_id : {U : Type 0} → ParseError U → U
extract_correlation_id (invalid_key id) = id
extract_correlation_id (invalid_request_type id) = id
extract_correlation_id (invalid_value id) = id
extract_correlation_id (malformed_payload id) = id
extract_correlation_id (missing_value id) = id
extract_correlation_id (unknown_flags id) = id
extract_correlation_id (unsupported_version id) = id

module _ {U : Type 0} where
  unfoldable pub from_internal_error : U → StorageEngineError → TcpResponse U
  unfolding engine_rc
  from_internal_error id e = record {
    correlation_id = id;
    response_code = engine_rc e;
    payload = none;
  }

  unfoldable pub from_tcp_parse_error : ParseError U → TcpResponse U
  unfolding tcp_rc extract_correlation_id
  from_tcp_parse_error e = record {
    correlation_id = extract_correlation_id e;
    response_code = tcp_rc (parse e);
    payload = none;
  }

  -- TcpResponse::from
  unfoldable pub from_value : U → Option Text → TcpResponse U
  from_value id value = record { correlation_id = id; response_code = 0; payload = value }

module _ (c : UuidCrate) where
  unfoldable pub create_close_notification : TcpResponse c.Uuid
  unfolding tcp_rc
  create_close_notification = record {
    correlation_id = c.nil;
    response_code = tcp_rc {U = c.Uuid} (connection timed_out);
    payload = none;
  }

  -- TcpResponse::len
  abbrev pub len : Option Text → ℕ
  len (some s) = length s + 17
  len none = 17

  -- the match at the end of TcpResponse::to_bytes
  unfoldable pub write_payload : {E : Type 0} → Option Text → List ℕ → Outcome E (List ℕ)
  write_payload none buf = ok buf
  write_payload (some s) buf = copy_to buf 17 (length buf) s

  unfoldable pub to_bytes : {E : Type 0} → TcpResponse c.Uuid → Outcome E (List ℕ)
  unfolding write_payload
  to_bytes r = do
    buf ← copy_to (zeroed (len r.payload)) 0 16 (c.as_bytes r.correlation_id)
    buf ← copy_to buf 16 17 (r.response_code ∷ [])
    write_payload r.payload buf
