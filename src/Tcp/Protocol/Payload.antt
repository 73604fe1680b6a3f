-- ===== src/Tcp/Protocol/Payload.antt =====
-- `Payload` and `parse_payload` of src/tcp/protocol.rs.
use rkvs.Base.{
  ℕ, ◌+◌, ◌-◌, List, Option, none, some, length, ltb, leb, if◌then◌else◌, Outcome, ok, err, ◌>>=◌,
  zeroed, slice, copy_to, be_bytes, from_be, from_utf8,
}
use rkvs.Tcp.Protocol.Types.{
  Payload, TcpError, parse, missing_value, invalid_key, invalid_value, malformed_payload,
  RequestType,
}

module _ {U : Type 0} where
  -- the arm of `RequestType::Put`
  unfoldable pub parse_put : List ℕ → U → ℕ → List ℕ → Outcome (TcpError U) Payload
  parse_put buf id key_len key =
      if leb (length buf - 4) key_len then err (parse (missing_value id)) else do
        len_bytes ← slice buf (key_len + 4) (key_len + 8)
        let value_len = from_be len_bytes
        bytes ← slice buf (key_len + 8) (key_len + 8 + value_len)
        value ← from_utf8 bytes (parse (invalid_value id))
        ok (record { key = key; value = some value })

  -- the arm of the other request types
  unfoldable pub parse_key_only : List ℕ → U → ℕ → List ℕ → Outcome (TcpError U) Payload
  parse_key_only buf id key_len key =
      if ltb key_len (length buf - 4)
      then err (parse (malformed_payload id))
      else ok (record { key = key; value = none })

  unfoldable pub parse_by_type :
      RequestType → List ℕ → U → ℕ → List ℕ → Outcome (TcpError U) Payload
  unfolding parse_put parse_key_only
  parse_by_type RequestType.put buf id key_len key = parse_put buf id key_len key
  parse_by_type RequestType.get buf id key_len key = parse_key_only buf id key_len key
  parse_by_type RequestType.delete buf id key_len key = parse_key_only buf id key_len key

  unfoldable pub parse_payload : List ℕ → RequestType → U → Outcome (TcpError U) Payload
  unfolding parse_by_type
  parse_payload buf request_type id = do
    len_bytes ← slice buf 0 4
    let key_len = from_be len_bytes
    key_bytes ← slice buf 4 (key_len + 4)
    key ← from_utf8 key_bytes (parse (invalid_key id))
    parse_by_type request_type buf id key_len key

-- Payload::len
abbrev pub len : Payload → ℕ
len p = elim p.value [ some v ↦ 8 + length p.key + length v | none ↦ 4 + length p.key ]

-- Payload::to_bytes, the closure over the value
unfoldable pub write_value : {E : Type 0} → ℕ → Option (List ℕ) → List ℕ → Outcome E (List ℕ)
write_value key_len none buf = ok buf
write_value key_len (some v) buf = do
  buf ← copy_to buf (key_len + 4) (key_len + 8) (be_bytes 4 (length v))
  copy_to buf (key_len + 8) (length buf) v

-- the size that Payload::to_bytes gives to its buffer
abbrev pub buffer_len : ℕ → Option (List ℕ) → ℕ
buffer_len key_len (some v) = key_len + 8 + length v
buffer_len key_len none = key_len + 4

unfoldable pub to_bytes : {E : Type 0} → Payload → Outcome E (List ℕ)
unfolding write_value
to_bytes p = do
  buf ← copy_to (zeroed (buffer_len (length p.key) p.value)) 0 4 (be_bytes 4 (length p.key))
  buf ← copy_to buf 4 (length p.key + 4) p.key
  write_value (length p.key) p.value buf
