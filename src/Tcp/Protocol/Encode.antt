-- ===== src/Tcp/Protocol/Encode.antt =====
-- `TcpRequest::to_bytes` of src/tcp/protocol.rs.
use rkvs.Base.{ℕ, ◌+◌, List, ◌++◌, Outcome, ok, ◌>>=◌, zeroed, copy_to, be_bytes}
use rkvs.Tcp.Uuid.{UuidCrate}
use rkvs.Tcp.Protocol.Types.{TcpRequest, magic_bytes}
use rkvs.Tcp.Protocol.Headers
use rkvs.Tcp.Protocol.Payload

module _ (c : UuidCrate) where
  unfoldable pub to_bytes : {E : Type 0} → TcpRequest c.Uuid → Outcome E (List ℕ)
  to_bytes r = do
    let header_len = Headers.len c r.headers + 4
    bytes ← copy_to (zeroed 8) 0 4 (be_bytes 4 header_len)
    bytes ← copy_to bytes 4 8 magic_bytes
    headers ← Headers.to_bytes c r.headers
    let payload_len = Payload.len r.payload
    payload ← Payload.to_bytes r.payload
    ok (((bytes ++ headers) ++ be_bytes 4 payload_len) ++ payload)
