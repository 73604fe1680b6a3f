-- ===== src/Tcp/Protocol/Malformed.antt =====
-- `parse_payload` of src/tcp/protocol.rs on a payload that is shorter than it says.
use rkvs.Base.{ℕ, ◌+◌, ◌<◌, ◌≡◌, ◌⊎◌, inl, inr, arith, List, length, take, panic, slice, from_be}
use rkvs.Tcp.Protocol.Types.{RequestType}
use rkvs.Tcp.Protocol.Payload.{parse_payload}

-- Where the payload is shorter than its first field, or than the key that this field announces,
-- the slice is out of bounds: the code panics, and returns no `MalformedPayload`.
pub parse_payload_short :
    {U : Type 0} (buf : List ℕ) (t : RequestType) (id : U)
    → (length buf < 4) ⊎ (length buf < 4 + from_be (take 4 buf))
    → parse_payload buf t id ≡ panic
unfolding parse_payload slice
parse_payload_short buf t id (inl h) = ground arith
parse_payload_short buf t id (inr h) = ground arith
