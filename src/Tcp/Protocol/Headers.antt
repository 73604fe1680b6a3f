-- ===== src/Tcp/Protocol/Headers.antt =====
-- `TcpHeaders`, `parse_headers` and what they call, of src/tcp/protocol.rs.
use rkvs.Base.{
  ℕ, List, [], ◌∷◌, Bool, not, ltb, ◌==◌, if◌then◌else◌, Outcome, ok, err, ◌>>=◌, map_err, zeroed,
  slice, index, copy_to, be_bytes, from_be, text_eq,
}
use rkvs.Tcp.Uuid.{UuidCrate}
use rkvs.Tcp.Protocol.Types.{
  TcpHeaders, TcpError, connection, parse, wrong_magic_bytes, unsupported_version,
  invalid_request_type, RequestType, protocol_version, magic_bytes,
}

unfoldable pub verify_magic_bytes : List ℕ → Bool
verify_magic_bytes buf = text_eq buf magic_bytes

unfoldable pub parse_request_type : ℕ → Outcome (Unit {0}) RequestType
parse_request_type n =
    if n == 0
    then ok RequestType.delete
    else if n == 1
    then ok RequestType.get
    else if n == 2
    then ok RequestType.put
    else err tt

-- TcpHeaders::to_bytes, its match on the request type
unfoldable pub request_type_byte : RequestType → ℕ
request_type_byte RequestType.delete = 0
request_type_byte RequestType.get = 1
request_type_byte RequestType.put = 2

module _ (c : UuidCrate) where
  open c use {Uuid}

  unfoldable pub parse_headers : List ℕ → Outcome (TcpError Uuid) (TcpHeaders Uuid)
  unfolding verify_magic_bytes parse_request_type
  parse_headers buf = do
    magic ← slice buf 0 4
    if not (verify_magic_bytes magic) then err (connection wrong_magic_bytes) else do
      id ← slice buf 4 20
      let correlation_id = c.from_bytes id
      version ← index buf 20
      if ltb protocol_version version then err (parse (unsupported_version correlation_id)) else do
        type_byte ← index buf 21
        request_type ←
            map_err (λ _. parse (invalid_request_type correlation_id))
              (parse_request_type type_byte)
        flag_bytes ← slice buf 22 24
        ok (record {
          request_type = request_type;
          correlation_id = correlation_id;
          version = version;
          flags = from_be flag_bytes;
        })

  -- TcpHeaders::len
  abbrev pub len : TcpHeaders Uuid → ℕ
  len h = 20

  unfoldable pub to_bytes : {E : Type 0} → TcpHeaders Uuid → Outcome E (List ℕ)
  unfolding request_type_byte
  to_bytes h = do
    buf ← copy_to (zeroed (len h)) 0 16 (c.to_bytes_le h.correlation_id)
    buf ← copy_to buf 16 17 (h.version ∷ [])
    buf ← copy_to buf 17 18 (request_type_byte h.request_type ∷ [])
    copy_to buf 18 20 (be_bytes 2 h.flags)
