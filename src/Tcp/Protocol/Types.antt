-- ===== src/Tcp/Protocol/Types.antt =====
-- The types and constants of src/tcp/protocol.rs. `U` is the type of the crate `uuid`.
use rkvs.Base.{ℕ, List, [], ◌∷◌, Option, Text, IoError}

-- PROTOCOL_VERSION
abbrev pub protocol_version : ℕ
protocol_version = 0

-- MAGIC_BYTES
abbrev pub magic_bytes : List ℕ
magic_bytes = 0x72 ∷ 0x6b ∷ 0x76 ∷ 0x73 ∷ []

pub data ParseError (U : Type 0) : Type 0 where
  unsupported_version : U → ParseError U
  invalid_request_type : U → ParseError U
  missing_value : U → ParseError U
  invalid_key : U → ParseError U
  invalid_value : U → ParseError U
  unknown_flags : U → ParseError U
  malformed_payload : U → ParseError U

pub data ConnectionError : Type 0 where
  io_error : IoError → ConnectionError
  wrong_magic_bytes : ConnectionError
  timed_out : ConnectionError

pub data TcpError (U : Type 0) : Type 0 where
  connection : ConnectionError → TcpError U
  parse : ParseError U → TcpError U

pub data RequestType : Type 0 where
  get put delete : RequestType

pub record TcpHeaders (U : Type 0) : Type 0 where
  pub request_type : RequestType
  pub correlation_id : U
  pub version : ℕ
  pub flags : ℕ

pub record Payload : Type 0 where
  pub key : Text
  pub value : Option Text

pub record TcpRequest (U : Type 0) : Type 0 where
  pub headers : TcpHeaders U
  pub payload : Payload

pub record TcpResponse (U : Type 0) : Type 0 where
  pub correlation_id : U
  pub response_code : ℕ
  pub payload : Option Text

-- impl From<io::Error> for TcpError
abbrev pub from_io : {U : Type 0} → IoError → TcpError U
from_io e = connection (io_error e)
