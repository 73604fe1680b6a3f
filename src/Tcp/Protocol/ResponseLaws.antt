-- ===== src/Tcp/Protocol/ResponseLaws.antt =====
-- What a response looks like on the wire, and what its code tells a client.
use rkvs.Base.{
  ℕ, suc, ◌+◌, ◌≤◌, ◌≡◌, sym, ◌∙◌, ◌==◌, if◌then◌else◌, ◌≢◌, refl, ap, arith, List, [], ◌∷◌, ◌++◌,
  append-nil, append_assoc, Option, none, some, length, ok, copy_next, zeroed, lengths, Text,
}
use rkvs.Tcp.Uuid.{UuidCrate}
use rkvs.Tcp.Protocol.Types.{
  TcpResponse, ParseError, parse, unsupported_version, invalid_request_type, missing_value,
  invalid_key, invalid_value, unknown_flags, malformed_payload,
}
use rkvs.Tcp.Protocol.Response
use rkvs.Tcp.Protocol.Response.{
  StorageEngineError, engine_rc, tcp_rc, from_internal_error, from_tcp_parse_error, from_value,
  extract_correlation_id, write_payload,
}

abbrev pub text_of : Option Text → Text
text_of none = []
text_of (some s) = s

module _ (c : UuidCrate) where
  -- The id, the code, and the payload if there is one.
  abbrev pub response_layout : TcpResponse c.Uuid → List ℕ
  response_layout r = c.as_bytes r.correlation_id ++ (r.response_code ∷ text_of r.payload)

  write_payload-layout :
      {E : Type 0} (pre : List ℕ) (p : Option Text) (n : ℕ)
      → length pre ≡ 17
      → n ≡ length (text_of p)
      → write_payload c {E = E} p (pre ++ zeroed n) ≡ ok (pre ++ text_of p)
  unfolding write_payload
  write_payload-layout pre none n h e = rw e
  write_payload-layout pre (some s) n h e =
      rw
        (copy_next pre s 0 17 (length (pre ++ zeroed n)) n refl (omega arith) (omega arith)
          (omega lengths))
        (ap ok (append-nil _))

  len-text_of : (p : Option Text) → Response.len c p ≡ 17 + length (text_of p)
  len-text_of none = refl
  len-text_of (some s) = omega arith

  -- `TcpResponse::to_bytes` never panics: it writes the 16 bytes of the id, the code, and the bytes
  -- of the payload if there is one.
  pub to_bytes-response_layout :
      {E : Type 0} (r : TcpResponse c.Uuid)
      → length (c.as_bytes r.correlation_id) ≡ 16
      → Response.to_bytes c {E = E} r ≡ ok (response_layout r)
  unfolding Response.to_bytes
  to_bytes-response_layout r h =
      let id = c.as_bytes r.correlation_id in
      let n = length (text_of r.payload) in
      rw
        (
          copy_next [] id (suc n) 0 16 (Response.len c r.payload) refl
              (omega (arith, len-text_of r.payload)) refl (omega arith),
          copy_next id (r.response_code ∷ []) n 16 17 (suc n) refl (omega arith) (omega arith) refl,
          write_payload-layout (id ++ r.response_code ∷ []) r.payload n (omega lengths) refl,
        )
        (ap ok (append_assoc id (r.response_code ∷ []) (text_of r.payload)))

-- The parse error that a code and an id stand for.
abbrev error_of : {U : Type 0} → ℕ → U → ParseError U
error_of n id =
    if n == 4
    then invalid_key id
    else if n == 5
    then invalid_value id
    else if n == 6
    then missing_value id
    else if n == 7
    then malformed_payload id
    else if n == 8
    then invalid_request_type id
    else if n == 9
    then unknown_flags id
    else unsupported_version id

error_of-rc :
    {U : Type 0} (p : ParseError U) → error_of (tcp_rc (parse p)) (extract_correlation_id p) ≡ p
unfolding tcp_rc extract_correlation_id
error_of-rc (invalid_key id) = refl
error_of-rc (invalid_value id) = refl
error_of-rc (missing_value id) = refl
error_of-rc (malformed_payload id) = refl
error_of-rc (invalid_request_type id) = refl
error_of-rc (unknown_flags id) = refl
error_of-rc (unsupported_version id) = refl

engine_rc_range : (e : StorageEngineError) → (1 ≤ engine_rc e) × (engine_rc e ≤ 3)
unfolding engine_rc
engine_rc_range e = ground arith

parse_rc_range : {U : Type 0} (p : ParseError U) → (4 ≤ tcp_rc (parse p)) × (tcp_rc (parse p) ≤ 10)
unfolding tcp_rc
parse_rc_range p = ground arith

-- The code of a response tells success, an error of the engine and an error of the request apart,
-- and two parse errors with the same response are the same error.
pub response_codes :
    {U : Type 0} (id : U) (value : Option Text) (e : StorageEngineError) (p q : ParseError U)
    → ((from_value id value).response_code ≢ (from_internal_error id e).response_code)
      × ((from_value id value).response_code ≢ (from_tcp_parse_error p).response_code)
      × ((from_internal_error id e).response_code ≢ (from_tcp_parse_error p).response_code)
      × (from_tcp_parse_error p ≡ from_tcp_parse_error q → p ≡ q)
unfolding from_value from_internal_error from_tcp_parse_error
response_codes id value e p q = (
  λ h. omega (arith, engine_rc_range e),
  λ h. omega (arith, parse_rc_range p),
  λ h. omega (arith, engine_rc_range e, parse_rc_range p),
  λ h.
      sym (error_of-rc p)
      ∙ (ap (λ (r : TcpResponse _). error_of r.response_code r.correlation_id) h ∙ error_of-rc q),
)
