-- ===== src/Tcp/Examples.antt =====
-- Requests, responses and connections at concrete values.
use rkvs.Base.{
  ℕ, zero, suc, ◌<◌, ◌≡◌, refl, ap, arith, List, [], ◌∷◌, ◌++◌, true, Option, none, some, length,
  ok, panic, be_bytes, inl, Text, IsUtf8, is_utf8,
}
use rkvs.Tcp.Uuid.{UuidCrate, UuidLaws, swap_fields}
use rkvs.Tcp.Store.{Store, value}
use rkvs.Tcp.Protocol.Types.{
  TcpRequest, TcpHeaders, TcpResponse, Payload, RequestType, ParseError, invalid_key,
  malformed_payload,
}
use rkvs.Tcp.Protocol.Types
use rkvs.Tcp.Protocol.Payload.{parse_payload}
use rkvs.Tcp.Protocol.Payload
use rkvs.Tcp.Protocol.Layout.{payload_layout}
use rkvs.Tcp.Protocol.Encode
use rkvs.Tcp.Protocol.Parse.{IsSendable, id_read_back}
use rkvs.Tcp.Protocol.RoundTrip.{request_layout, as_read_back, receive, receive-to_bytes}
use rkvs.Tcp.Protocol.Malformed.{parse_payload_short}
use rkvs.Tcp.Protocol.Response
use rkvs.Tcp.Protocol.Response.{
  StorageEngineError, from_value, from_internal_error, from_tcp_parse_error,
}
use rkvs.Tcp.Protocol.ResponseLaws.{response_layout, to_bytes-response_layout}
use rkvs.Tcp.Connection.{
  Conn, closed, cancelled, timer_out, read_done, keep_alive, select_status, start, write_all,
}
use rkvs.Tcp.Connection.Closing.{notification, start_closes, unsupported_leaves_payload}

-- A UUID as its 16 bytes.
abbrev Bytes : ℕ → Type 0
Bytes zero = Unit
Bytes (suc n) = ℕ × Bytes n

abbrev of_list : (n : ℕ) → List ℕ → Bytes n
of_list zero bs = tt
of_list (suc n) [] = (0, of_list n [])
of_list (suc n) (b ∷ bs) = (b, of_list n bs)

abbrev to_list : (n : ℕ) → Bytes n → List ℕ
to_list zero u = []
to_list (suc n) (b, u) = b ∷ to_list n u

length-to_list : (n : ℕ) (u : Bytes n) → length (to_list n u) ≡ n
length-to_list zero u = refl
length-to_list (suc n) (b, u) = omega (arith, length-to_list n u)

of_list-to_list : (n : ℕ) (u : Bytes n) → of_list n (to_list n u) ≡ u
of_list-to_list zero u = refl
of_list-to_list (suc n) (b, u) = ap (λ v. (b, v)) (of_list-to_list n u)

to_list-of_list : (n : ℕ) (bs : List ℕ) → length bs ≡ n → to_list n (of_list n bs) ≡ bs
to_list-of_list zero [] h = refl
to_list-of_list zero (b ∷ bs) h = absurd (omega arith)
to_list-of_list (suc n) [] h = absurd (omega arith)
to_list-of_list (suc n) (b ∷ bs) h = ap (λ cs. b ∷ cs) (to_list-of_list n bs (omega arith))

abbrev crate : UuidCrate
crate = record {
  Uuid = Bytes 16;
  from_bytes = of_list 16;
  as_bytes = to_list 16;
  to_bytes_le = λ u. swap_fields (to_list 16 u);
  nil = of_list 16 [];
}

crate_laws : UuidLaws crate
crate_laws = record {
  length-as_bytes = length-to_list 16;
  from_bytes-as_bytes = of_list-to_list 16;
  as_bytes-from_bytes = to_list-of_list 16;
  to_bytes_le_lem = λ u. refl;
}

-- An engine that holds one value, whatever its key.
abbrev cell : Store (Option Text)
cell = record {
  get = λ s key. (value s, s);
  put = λ s key v. (value s, some v);
  delete = λ s key. (value s, none);
}

abbrev id : Bytes 16
id = of_list 16 (1 ∷ 2 ∷ 3 ∷ 4 ∷ 5 ∷ 6 ∷ [])

-- a put of "v" under "key", and a get
abbrev put_request : TcpRequest (Bytes 16)
put_request = record {
  headers = record { request_type = RequestType.put; correlation_id = id; version = 0; flags = 3 };
  payload = record { key = b'k' ∷ b'e' ∷ b'y' ∷ []; value = some (b'v' ∷ []) };
}

abbrev get_request : TcpRequest (Bytes 16)
get_request = record {
  headers = record { request_type = RequestType.get; correlation_id = id; version = 0; flags = 0 };
  payload = record { key = b'k' ∷ []; value = none };
}

-- the same get in a version that there is not
abbrev future_request : TcpRequest (Bytes 16)
future_request = record {
  headers = record { request_type = RequestType.get; correlation_id = id; version = 1; flags = 0 };
  payload = record { key = b'k' ∷ []; value = none };
}

key-IsUtf8 : IsUtf8 (b'k' ∷ b'e' ∷ b'y' ∷ [])
unfolding is_utf8
key-IsUtf8 = refl

v-IsUtf8 : IsUtf8 (b'v' ∷ [])
unfolding is_utf8
v-IsUtf8 = refl

put_request-IsSendable : IsSendable put_request
put_request-IsSendable = record {
  version = refl;
  flags = omega arith;
  key = key-IsUtf8;
  value = v-IsUtf8;
  size = omega arith;
}

receive-to_bytes_example :
    (bytes : List ℕ) × (Encode.to_bytes crate {E = Unit} put_request ≡ ok bytes)
    × (receive crate (bytes ++ (7 ∷ [])) ≡ (ok (as_read_back crate put_request), 7 ∷ []))
receive-to_bytes_example = receive-to_bytes crate put_request (7 ∷ []) refl put_request-IsSendable

-- half a length is all that comes
abbrev half : Conn (Option Text)
half = record { stream = 0 ∷ 0 ∷ []; output = []; engine = none }

start_closes_example :
    (start crate cell (record { select = cancelled; write_ok = true } ∷ []) half
      ≡ closed (write_all true (notification crate crate_laws cell) half))
    × (start crate cell (record { select = timer_out; write_ok = true } ∷ []) half
        ≡ closed (write_all true (notification crate crate_laws cell) half))
    × (length half.stream < 4
        → start crate cell (record { select = read_done; write_ok = true } ∷ []) half
          ≡ closed (record half { stream = [] }))
start_closes_example = start_closes crate crate_laws cell true [] half

unsupported_leaves_payload_example :
    select_status crate cell
      (record { select = read_done; write_ok = true })
      (record { stream = request_layout crate future_request ++ []; output = []; engine = none })
    ≡ ok (
      keep_alive,
      record {
        stream =
            be_bytes 4 (Payload.len future_request.payload)
            ++ (payload_layout (b'k' ∷ []) none ++ []);
        output =
            []
            ++ response_layout crate
                (from_tcp_parse_error (Types.unsupported_version (id_read_back crate id)));
        engine = none;
      },
    )
unsupported_leaves_payload_example =
    unsupported_leaves_payload crate crate_laws cell future_request [] [] none (omega arith)

parse_payload_short_example : parse_payload (0 ∷ 0 ∷ []) RequestType.get id ≡ panic
parse_payload_short_example =
    parse_payload_short (0 ∷ 0 ∷ []) RequestType.get id (inl (omega arith))

abbrev response : TcpResponse (Bytes 16)
response = record { correlation_id = id; response_code = 0; payload = some (b'v' ∷ []) }

to_bytes-response_layout_example :
    Response.to_bytes crate {E = Unit} response ≡ ok (response_layout crate response)
to_bytes-response_layout_example = to_bytes-response_layout crate response refl
