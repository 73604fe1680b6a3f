-- ===== src/Tcp/Protocol/Request.antt =====
-- `TcpRequest::to_bytes`, and `recv_tcp_request` with what it calls, of src/tcp/protocol.rs.
use rkvs.Base.{ℕ, List, ok}
use rkvs.Tcp.Uuid.{UuidCrate}
use rkvs.Tcp.Stream.{Recv, ◌>>=◌, lift, read_exact, read_u32}
use rkvs.Tcp.Protocol.Types.{TcpRequest, TcpError, from_io}
use rkvs.Tcp.Protocol.Headers.{parse_headers}
use rkvs.Tcp.Protocol.Payload.{parse_payload}

module _ {U : Type 0} where
  unfoldable pub recv_headers : ℕ → Recv (TcpError U) (List ℕ)
  recv_headers len = do buf ← read_exact from_io len; lift (ok buf)

  unfoldable pub recv_payload : ℕ → Recv (TcpError U) (List ℕ)
  recv_payload len = do buf ← read_exact from_io len; lift (ok buf)

module _ (c : UuidCrate) where
  open c use {Uuid}

  unfoldable pub recv_tcp_request : ℕ → Recv (TcpError Uuid) (TcpRequest Uuid)
  unfolding recv_headers recv_payload
  recv_tcp_request header_len = do
    header_buf ← recv_headers header_len
    headers ← lift (parse_headers c header_buf)
    payload_len ← read_u32 from_io
    payload_buf ← recv_payload payload_len
    payload ← lift (parse_payload payload_buf headers.request_type headers.correlation_id)
    lift (ok (record { headers = headers; payload = payload }))
