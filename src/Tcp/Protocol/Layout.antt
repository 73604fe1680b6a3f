-- ===== src/Tcp/Protocol/Layout.antt =====
-- The bytes of headers and payloads, part by part, as src/tcp/protocol.rs writes them.
use rkvs.Base.{
  ℕ, ◌+◌, ◌≡◌, refl, ap, arith, List, [], ◌∷◌, ◌++◌, append-nil, append_assoc, Option, none, some,
  length, ok, be_bytes, copy_next, zeroed, lengths,
}
use rkvs.Tcp.Uuid.{UuidCrate}
use rkvs.Tcp.Protocol.Types.{Payload, TcpHeaders}
use rkvs.Tcp.Protocol.Headers
use rkvs.Tcp.Protocol.Headers.{request_type_byte}
use rkvs.Tcp.Protocol.Payload
use rkvs.Tcp.Protocol.Payload.{write_value}

abbrev pub value_layout : Option (List ℕ) → List ℕ
value_layout none = []
value_layout (some v) = be_bytes 4 (length v) ++ v

abbrev pub payload_layout : List ℕ → Option (List ℕ) → List ℕ
payload_layout key value = be_bytes 4 (length key) ++ (key ++ value_layout value)

abbrev pub front : List ℕ → List ℕ
front key = be_bytes 4 (length key) ++ key

write_value-payload_layout :
    {E : Type 0} (key : List ℕ) (value : Option (List ℕ)) (n : ℕ)
    → n ≡ length (value_layout value)
    → write_value {E = E} (length key) value (front key ++ zeroed n) ≡ ok (payload_layout key value)
unfolding write_value
write_value-payload_layout key none n e = rw e (ap ok (append_assoc _ key []))
write_value-payload_layout key (some v) n e =
    rw
      (
        copy_next (front key) (be_bytes 4 (length v)) (length v) (length key + 4) (length key + 8) n
            refl (omega lengths) (omega lengths) (omega lengths),
        copy_next (front key ++ be_bytes 4 (length v)) v 0 (length key + 8)
            (length ((front key ++ be_bytes 4 (length v)) ++ zeroed (length v))) (length v) refl
            (omega arith) (omega lengths) (omega lengths),
      )
      (ap ok (simp (append_assoc, append-nil)))

buffer_len-value_layout :
    (key_len : ℕ) (value : Option (List ℕ))
    → Payload.buffer_len key_len value ≡ 4 + (key_len + length (value_layout value))
buffer_len-value_layout key_len none = omega arith
buffer_len-value_layout key_len (some v) = omega lengths

-- `Payload::to_bytes` writes the key and the value, each behind its length, and never panics.
pub to_bytes-payload_layout :
    {E : Type 0} (p : Payload) → Payload.to_bytes {E = E} p ≡ ok (payload_layout p.key p.value)
unfolding Payload.to_bytes
to_bytes-payload_layout p =
    rw
      (
        copy_next [] (be_bytes 4 (length p.key)) (length p.key + length (value_layout p.value)) 0 4
            (Payload.buffer_len (length p.key) p.value) refl
            (omega (lengths, buffer_len-value_layout (length p.key) p.value)) refl (omega lengths),
        copy_next (be_bytes 4 (length p.key)) p.key (length (value_layout p.value)) 4
            (length p.key + 4) (length p.key + length (value_layout p.value)) refl refl
            (omega lengths) (omega lengths),
      )
      (write_value-payload_layout p.key p.value _ refl)

-- The 20 bytes of the headers.
abbrev pub headers_layout : (c : UuidCrate) → TcpHeaders c.Uuid → List ℕ
headers_layout c h =
    c.to_bytes_le h.correlation_id
    ++ (h.version ∷ request_type_byte h.request_type ∷ be_bytes 2 h.flags)

pub to_bytes-headers_layout :
    {E : Type 0} (c : UuidCrate) (h : TcpHeaders c.Uuid)
    → length (c.to_bytes_le h.correlation_id) ≡ 16
    → Headers.to_bytes c {E = E} h ≡ ok (headers_layout c h)
unfolding Headers.to_bytes
to_bytes-headers_layout c h e =
    rw
      (
        copy_next [] (c.to_bytes_le h.correlation_id) 4 0 16 20 refl (omega arith) refl
            (omega arith),
        copy_next (c.to_bytes_le h.correlation_id) (h.version ∷ []) 3 16 17 4 refl refl
            (omega arith) refl,
        copy_next (c.to_bytes_le h.correlation_id ++ h.version ∷ [])
            (request_type_byte h.request_type ∷ []) 2 17 18 3 refl refl (omega lengths) refl,
        copy_next
            ((c.to_bytes_le h.correlation_id ++ h.version ∷ [])
              ++ request_type_byte h.request_type ∷ [])
            (be_bytes 2 h.flags) 0 18 20 2 refl (omega lengths) (omega lengths) (omega lengths),
      )
      (ap ok (simp (append_assoc, append-nil)))
