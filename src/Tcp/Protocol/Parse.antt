-- ===== src/Tcp/Protocol/Parse.antt =====
-- `parse_payload` and `parse_headers` on the bytes that src/tcp/protocol.rs writes.
use rkvs.Base.{
  ℕ, ◌+◌, ◌<◌, ◌^◌, ◌≡◌, refl, arith, List, [], ◌∷◌, ◌++◌, append-nil, append_assoc, Option, none,
  some, length, ok, be_bytes, from_be-be_bytes, lengths, slice_mid, index_mid, IsUtf8,
  from_utf8-IsUtf8, Text, text_eq_refl, le→not-ltb, lt→not-leb, ◌-◌, ◌≤◌,
}
use rkvs.Tcp.Uuid.{UuidCrate}
use rkvs.Tcp.Protocol.Types.{
  Payload, TcpHeaders, TcpRequest, protocol_version, RequestType, magic_bytes,
}
use rkvs.Tcp.Protocol.Headers.{request_type_byte, parse_headers, parse_request_type}
use rkvs.Tcp.Protocol.Payload
use rkvs.Tcp.Protocol.Payload.{parse_payload, parse_by_type, parse_put, parse_key_only}
use rkvs.Tcp.Protocol.Layout.{front, payload_layout, value_layout, headers_layout}

-- A value goes with a put and with nothing else, and is valid UTF-8.
abbrev pub ValueFits : RequestType → Option Text → Type 0
ValueFits RequestType.put none = ⊥
ValueFits RequestType.put (some v) = IsUtf8 v
ValueFits RequestType.get none = Unit
ValueFits RequestType.get (some v) = ⊥
ValueFits RequestType.delete none = Unit
ValueFits RequestType.delete (some v) = ⊥

-- A request that the protocol can carry.
pub record IsSendable {U : Type 0} (r : TcpRequest U) : Type 0 where
  pub version : r.headers.version ≡ 0
  pub flags : r.headers.flags < 2 ^ 16
  pub key : IsUtf8 r.payload.key
  pub value : ValueFits r.headers.request_type r.payload.value
  pub size : Payload.len r.payload < 2 ^ 32

parse_key_only-layout :
    {U : Type 0} (id : U) (key : Text)
    → parse_key_only (payload_layout key none) id (length key) key
      ≡ ok (record { key = key; value = none })
unfolding parse_key_only
parse_key_only-layout id key =
    rw (le→not-ltb (length key) (length (payload_layout key none) - 4) (omega lengths))

parse_put-layout :
    {U : Type 0} (id : U) (key v : Text)
    → IsUtf8 v
    → 8 + length key + length v < 2 ^ 32
    → parse_put (payload_layout key (some v)) id (length key) key
      ≡ ok (record { key = key; value = some v })
unfolding parse_put
parse_put-layout id key v hv hs = rw (
  lt→not-leb (length (payload_layout key (some v)) - 4) (length key) (omega lengths),
  slice_mid (payload_layout key (some v)) (front key) (be_bytes 4 (length v)) v (length key + 4)
      (length key + 8) (simp append_assoc) (omega lengths) (omega lengths),
  from_be-be_bytes 4 (length v) (omega arith),
  slice_mid (payload_layout key (some v)) (front key ++ be_bytes 4 (length v)) v [] (length key + 8)
      (length key + 8 + length v) (simp (append_assoc, append-nil)) (omega lengths) refl,
  from_utf8-IsUtf8 v _ hv,
)

parse_by_type-layout :
    {U : Type 0} (t : RequestType) (id : U) (key : Text) (value : Option Text)
    → ValueFits t value
    → Payload.len (record { key = key; value = value }) < 2 ^ 32
    → parse_by_type t (payload_layout key value) id (length key) key
      ≡ ok (record { key = key; value = value })
unfolding parse_by_type
parse_by_type-layout RequestType.put id key none h hs = absurd h
parse_by_type-layout RequestType.put id key (some v) h hs = parse_put-layout id key v h hs
parse_by_type-layout RequestType.get id key none h hs = parse_key_only-layout id key
parse_by_type-layout RequestType.get id key (some v) h hs = absurd h
parse_by_type-layout RequestType.delete id key none h hs = parse_key_only-layout id key
parse_by_type-layout RequestType.delete id key (some v) h hs = absurd h

length-key-le-len :
    (key : Text) (value : Option Text)
    → length key ≤ Payload.len (record { key = key; value = value })
length-key-le-len key none = omega arith
length-key-le-len key (some v) = omega arith

pub parse_payload-layout :
    {U : Type 0} (t : RequestType) (id : U) (p : Payload)
    → IsUtf8 p.key
    → ValueFits t p.value
    → Payload.len p < 2 ^ 32
    → parse_payload (payload_layout p.key p.value) t id ≡ ok p
unfolding parse_payload
parse_payload-layout t id p hk hv hs =
    let key_len : length p.key < 256 ^ 4 = omega (arith, length-key-le-len p.key p.value) in
    rw
      (
        slice_mid (payload_layout p.key p.value) [] (be_bytes 4 (length p.key))
            (p.key ++ value_layout p.value) 0 4 refl refl (omega lengths),
        from_be-be_bytes 4 (length p.key) key_len,
        slice_mid (payload_layout p.key p.value) (be_bytes 4 (length p.key)) p.key
            (value_layout p.value) 4 (length p.key + 4) refl (omega lengths) (omega arith),
        from_utf8-IsUtf8 p.key _ hk,
      )
      (parse_by_type-layout t id p.key p.value hv hs)

parse_request_type-byte : (t : RequestType) → parse_request_type (request_type_byte t) ≡ ok t
unfolding parse_request_type request_type_byte
parse_request_type-byte RequestType.get = refl
parse_request_type-byte RequestType.put = refl
parse_request_type-byte RequestType.delete = refl

module _ (c : UuidCrate) where
  -- The id that a reader sees: the writer's bytes are little-endian, the reader takes them as they
  -- are.
  abbrev pub id_read_back : c.Uuid → c.Uuid
  id_read_back id = c.from_bytes (c.to_bytes_le id)

  -- The four magic bytes and the headers.
  abbrev pub header_frame : TcpHeaders c.Uuid → List ℕ
  header_frame h = magic_bytes ++ headers_layout c h

  pub parse_headers-layout :
      (h : TcpHeaders c.Uuid)
      → length (c.to_bytes_le h.correlation_id) ≡ 16
      → h.version ≡ 0
      → h.flags < 2 ^ 16
      → parse_headers c (header_frame h)
        ≡ ok (record h { correlation_id = id_read_back h.correlation_id })
  unfolding parse_headers
  parse_headers-layout h hl hv hf =
      let id = c.to_bytes_le h.correlation_id in
      let tail = be_bytes 2 h.flags in
      let kind = request_type_byte h.request_type in
      rw (
        slice_mid (header_frame h) [] magic_bytes (headers_layout c h) 0 4 refl refl refl,
        text_eq_refl magic_bytes,
        slice_mid (header_frame h) magic_bytes id (h.version ∷ kind ∷ tail) 4 20 refl refl
            (omega arith),
        index_mid (header_frame h) (magic_bytes ++ id) h.version (kind ∷ tail) 20
            (simp append_assoc) (omega lengths),
        le→not-ltb protocol_version h.version (omega arith),
        index_mid (header_frame h) (magic_bytes ++ (id ++ h.version ∷ [])) kind tail 21
            (simp append_assoc) (omega lengths),
        parse_request_type-byte h.request_type,
        slice_mid (header_frame h) (magic_bytes ++ (id ++ h.version ∷ kind ∷ [])) tail [] 22 24
            (simp (append_assoc, append-nil)) (omega lengths) (omega lengths),
        from_be-be_bytes 2 h.flags hf,
      )
