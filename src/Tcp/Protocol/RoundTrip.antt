-- ===== src/Tcp/Protocol/RoundTrip.antt =====
-- A request that `TcpRequest::to_bytes` wrote is what `recv_tcp_request` reads back.
use rkvs.Base.{
  ℕ, ◌≡◌, refl, ap, arith, List, [], ◌++◌, append-nil, append_assoc, Option, none, some, length, ok,
  be_bytes, copy_next, lengths, Text,
}
use rkvs.Tcp.Uuid.{UuidCrate}
use rkvs.Tcp.Stream.{Recv, ◌>>=◌, read_u32}
use rkvs.Tcp.Protocol.Types.{TcpRequest, TcpError, from_io, magic_bytes}
use rkvs.Tcp.Protocol.Payload
use rkvs.Tcp.Protocol.Layout.{payload_layout, to_bytes-payload_layout, to_bytes-headers_layout}
use rkvs.Tcp.Protocol.Request.{recv_tcp_request}
use rkvs.Tcp.Protocol.Encode
use rkvs.Tcp.Protocol.Parse.{
  IsSendable, header_frame, id_read_back, parse_headers-layout, parse_payload-layout,
}
use rkvs.Tcp.Stream.Laws.{read_exact-append, read_u32-append}

length-payload_layout :
    (key : Text) (value : Option Text)
    → Payload.len (record { key = key; value = value }) ≡ length (payload_layout key value)
length-payload_layout key none = omega lengths
length-payload_layout key (some v) = omega lengths

module _ (c : UuidCrate) where
  -- Everything that is sent for a request.
  abbrev pub request_layout : TcpRequest c.Uuid → List ℕ
  request_layout r =
      be_bytes 4 24
      ++ (header_frame c r.headers
          ++ (be_bytes 4 (Payload.len r.payload) ++ payload_layout r.payload.key r.payload.value))

  to_bytes-request_layout :
      {E : Type 0} (r : TcpRequest c.Uuid)
      → length (c.to_bytes_le r.headers.correlation_id) ≡ 16
      → Encode.to_bytes c {E = E} r ≡ ok (request_layout r)
  unfolding Encode.to_bytes
  to_bytes-request_layout r h =
      rw
        (
          copy_next [] (be_bytes 4 24) 4 0 4 8 refl (omega lengths) refl (omega lengths),
          copy_next (be_bytes 4 24) magic_bytes 0 4 8 4 refl refl (omega lengths) refl,
          to_bytes-headers_layout c r.headers h,
          to_bytes-payload_layout r.payload,
        )
        (ap ok (simp (append_assoc, append-nil)))

  -- The request that the server reads for `r`.
  abbrev pub as_read_back : TcpRequest c.Uuid → TcpRequest c.Uuid
  as_read_back r = record r {
    headers = record r.headers { correlation_id = id_read_back c r.headers.correlation_id };
  }

  -- What the server does with one request: it reads the length of the headers, then the rest.
  abbrev pub receive : Recv (TcpError c.Uuid) (TcpRequest c.Uuid)
  receive = do header_len ← read_u32 from_io; recv_tcp_request c header_len

  -- What follows the length of the headers.
  abbrev pub body_layout : TcpRequest c.Uuid → List ℕ
  body_layout r =
      header_frame c r.headers
      ++ (be_bytes 4 (Payload.len r.payload) ++ payload_layout r.payload.key r.payload.value)

  pub recv_tcp_request-body_layout :
      (r : TcpRequest c.Uuid) (rest : List ℕ)
      → length (c.to_bytes_le r.headers.correlation_id) ≡ 16
      → IsSendable r
      → recv_tcp_request c 24 (body_layout r ++ rest) ≡ (ok (as_read_back r), rest)
  unfolding recv_tcp_request
  recv_tcp_request-body_layout r rest hl s =
      let h = header_frame c r.headers in
      let p = payload_layout r.payload.key r.payload.value in
      let n = Payload.len r.payload in
      rw (
        append_assoc h (be_bytes 4 n ++ p) rest,
        read_exact-append {E = TcpError c.Uuid} from_io 24 h ((be_bytes 4 n ++ p) ++ rest)
            (omega lengths),
        parse_headers-layout c r.headers hl s.version s.flags,
        append_assoc (be_bytes 4 n) p rest,
        read_u32-append {E = TcpError c.Uuid} from_io n (p ++ rest) s.size,
        read_exact-append {E = TcpError c.Uuid} from_io n p rest
            (length-payload_layout r.payload.key r.payload.value),
        parse_payload-layout r.headers.request_type (id_read_back c r.headers.correlation_id)
            r.payload s.key s.value s.size,
      )

  -- The length of the headers, which the loop of the connection reads.
  pub read_u32-request_layout :
      (r : TcpRequest c.Uuid) (rest : List ℕ)
      → read_u32 {E = TcpError c.Uuid} from_io (request_layout r ++ rest)
        ≡ (ok 24, body_layout r ++ rest)
  read_u32-request_layout r rest = rw (
    append_assoc (be_bytes 4 24) (body_layout r) rest,
    read_u32-append {E = TcpError c.Uuid} from_io 24 (body_layout r ++ rest) (omega arith),
  )

  receive-request_layout :
      (r : TcpRequest c.Uuid) (rest : List ℕ)
      → length (c.to_bytes_le r.headers.correlation_id) ≡ 16
      → IsSendable r
      → receive (request_layout r ++ rest) ≡ (ok (as_read_back r), rest)
  receive-request_layout r rest hl s =
      rw (read_u32-request_layout r rest, recv_tcp_request-body_layout r rest hl s)

  -- A request that can be carried is encoded without a panic, and the server that reads the bytes
  -- gets every field of it back but the correlation id, which it reads as `id_read_back`; what
  -- follows on the stream is left for the next request.
  pub receive-to_bytes :
      {E : Type 0} (r : TcpRequest c.Uuid) (rest : List ℕ)
      → length (c.to_bytes_le r.headers.correlation_id) ≡ 16
      → IsSendable r
      → (bytes : List ℕ) × (Encode.to_bytes c {E = E} r ≡ ok bytes)
        × (receive (bytes ++ rest) ≡ (ok (as_read_back r), rest))
  receive-to_bytes r rest hl s =
      (request_layout r, to_bytes-request_layout r hl, receive-request_layout r rest hl s)
