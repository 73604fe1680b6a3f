-- ===== src/Tcp/Connection/Closing.antt =====
-- How a connection ends, and what a request with bad headers leaves behind.
use rkvs.Base.{
  ℕ, ◌<◌, ◌≡◌, refl, arith, List, [], ◌∷◌, ◌++◌, append_assoc, length, lengths, Bool, true, ok, err,
  be_bytes, lt→ltb, slice_mid, index_mid, text_eq_refl,
}
use rkvs.Tcp.Uuid.{UuidCrate, UuidLaws}
use rkvs.Tcp.Store.{Store}
use rkvs.Tcp.Stream.Laws.{read_exact-append, read_exact_short}
use rkvs.Tcp.Stream.{read_u32}
use rkvs.Tcp.Protocol.Types.{
  TcpRequest, TcpHeaders, TcpError, parse, unsupported_version, from_io, magic_bytes,
  protocol_version,
}
use rkvs.Tcp.Protocol.Headers.{parse_headers, request_type_byte}
use rkvs.Tcp.Protocol.Payload
use rkvs.Tcp.Protocol.Layout.{payload_layout, headers_layout}
use rkvs.Tcp.Protocol.Request.{recv_tcp_request}
use rkvs.Tcp.Protocol.Parse.{id_read_back, header_frame}
use rkvs.Tcp.Protocol.RoundTrip.{request_layout, read_u32-request_layout}
use rkvs.Tcp.Protocol.Response.{create_close_notification, from_tcp_parse_error}
use rkvs.Tcp.Protocol.ResponseLaws.{response_layout, to_bytes-response_layout}
use rkvs.Tcp.Connection.{
  Conn, Turn, cancelled, timer_out, read_done, closed, keep_alive, select_status, start, write_all,
}
use rkvs.Tcp.Connection.Session.{length-to_bytes_le}

module _ (c : UuidCrate) (laws : UuidLaws c) {S : Type 0} (store : Store S) where
  abbrev pub notification : List ℕ
  notification = response_layout c (create_close_notification c)

  -- On a cancelled token and on a timer that runs out the client is notified, if the write
  -- succeeds; where the stream ends before a length is read, it is not. Each of the three ends the
  -- loop.
  pub start_closes :
      (write_ok : Bool) (turns : List Turn) (conn : Conn S)
      → (start c store (record { select = cancelled; write_ok = write_ok } ∷ turns) conn
          ≡ closed (write_all write_ok notification conn))
        × (start c store (record { select = timer_out; write_ok = write_ok } ∷ turns) conn
            ≡ closed (write_all write_ok notification conn))
        × (length conn.stream < 4
            → start c store (record { select = read_done; write_ok = write_ok } ∷ turns) conn
              ≡ closed (record conn { stream = [] }))
  unfolding start read_u32
  start_closes w turns conn = (
    rw (to_bytes-response_layout c {E = ⊥} (create_close_notification c) (laws.length-as_bytes _)),
    rw (to_bytes-response_layout c {E = ⊥} (create_close_notification c) (laws.length-as_bytes _)),
    λ h. rw (read_exact_short {E = TcpError c.Uuid} from_io 4 conn.stream h),
  )

  parse_headers_unsupported :
      (h : TcpHeaders c.Uuid)
      → 0 < h.version
      → parse_headers c (header_frame c h)
        ≡ err (parse (unsupported_version (id_read_back c h.correlation_id)))
  unfolding parse_headers
  parse_headers_unsupported h hv =
      let id = c.to_bytes_le h.correlation_id in
      let tail = request_type_byte h.request_type ∷ be_bytes 2 h.flags in
      rw (
        slice_mid (header_frame c h) [] magic_bytes (headers_layout c h) 0 4 refl refl refl,
        text_eq_refl magic_bytes,
        slice_mid (header_frame c h) magic_bytes id (h.version ∷ tail) 4 20 refl refl
            (omega (arith, length-to_bytes_le c laws store h.correlation_id)),
        index_mid (header_frame c h) (magic_bytes ++ id) h.version tail 20 (simp append_assoc)
            (omega (lengths, length-to_bytes_le c laws store h.correlation_id)),
        lt→ltb protocol_version h.version hv,
      )

  -- A request of an unsupported version is answered and the connection kept, but its payload is
  -- not read: the next turn of the loop starts at the length of that payload.
  pub unsupported_leaves_payload :
      (r : TcpRequest c.Uuid) (rest out : List ℕ) (s : S)
      → 0 < r.headers.version
      → select_status c store
          (record { select = read_done; write_ok = true })
          (record { stream = request_layout c r ++ rest; output = out; engine = s })
        ≡ ok (
          keep_alive,
          record {
            stream =
                be_bytes 4 (Payload.len r.payload)
                ++ (payload_layout r.payload.key r.payload.value ++ rest);
            output =
                out
                ++ response_layout c (
                    from_tcp_parse_error
                      (unsupported_version (id_read_back c r.headers.correlation_id)));
            engine = s;
          },
        )
  unfolding select_status recv_tcp_request
  unsupported_leaves_payload r rest out s hv =
      let h = header_frame c r.headers in
      let p = payload_layout r.payload.key r.payload.value in
      let n = Payload.len r.payload in
      let e = unsupported_version (id_read_back c r.headers.correlation_id) in
      rw (
        read_u32-request_layout c r rest,
        append_assoc h (be_bytes 4 n ++ p) rest,
        read_exact-append {E = TcpError c.Uuid} from_io 24 h ((be_bytes 4 n ++ p) ++ rest)
            (omega (lengths, length-to_bytes_le c laws store r.headers.correlation_id)),
        parse_headers_unsupported r.headers hv,
        append_assoc (be_bytes 4 n) p rest,
        to_bytes-response_layout c {E = ⊥} (from_tcp_parse_error e) (laws.length-as_bytes _),
      )
