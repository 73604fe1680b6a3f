-- ===== src/Tcp/Connection.antt =====
-- `TcpConnection` of src/tcp/connection.rs: one turn of the loop of `start` for each element of a
-- schedule, which says which branch of the `select!` completes and whether a write succeeds.
pub mod Session
pub mod Closing
use rkvs.Base.{
  ℕ, List, [], ◌∷◌, ◌++◌, Bool, true, false, Option, none, some, if◌then◌else◌, Outcome, ok, err,
  panic, ◌>>=◌, unwrap, Text,
}
use rkvs.Tcp.Uuid.{UuidCrate}
use rkvs.Tcp.Stream.{read_u32}
use rkvs.Tcp.Store.{Store, EngineResult, value, failure}
use rkvs.Tcp.Protocol.Types.{
  TcpRequest, TcpResponse, TcpError, RequestType, Payload, connection, parse, timed_out, io_error,
  wrong_magic_bytes, from_io,
}
use rkvs.Tcp.Protocol.Request.{recv_tcp_request}
use rkvs.Tcp.Protocol.Response
use rkvs.Tcp.Protocol.Response.{
  not_found, from_value, from_internal_error, from_tcp_parse_error, create_close_notification,
}

pub data Operation : Type 0 where
  get : Text → Operation
  put : Text → Text → Operation
  delete : Text → Operation

pub data KeepAliveStatus : Type 0 where
  keep_alive close_notify close_silent : KeepAliveStatus

pub data CloseMode : Type 0 where
  notify silent : CloseMode

-- Which branch of the `select!` completes first: the token is cancelled, the timer of
-- `recv_header_len` runs out, or its read is done, with a length or with an error.
pub data Select : Type 0 where
  cancelled timer_out read_done : Select

pub record Turn : Type 0 where
  pub select : Select
  pub write_ok : Bool

-- What is still to be read, what has been written, and the state of the engine.
pub record Conn (S : Type 0) : Type 0 where
  pub stream : List ℕ
  pub output : List ℕ
  pub engine : S

-- The loop has ended, or the schedule has; a panic ends the task.
pub data Run (S : Type 0) : Type 0 where
  closed : Conn S → Run S
  running : Conn S → Run S
  panicked : Run S

-- impl From<TcpRequest> for Operation: the `unwrap` is on the value of a put
unfoldable pub operation_of : {E : Type 0} → RequestType → Payload → Outcome E Operation
operation_of RequestType.delete p = ok (delete p.key)
operation_of RequestType.get p = ok (get p.key)
operation_of RequestType.put p = do v ← unwrap p.value; ok (put p.key v)

-- the closure of `call_storage_engine` on what a get returned
abbrev pub or_not_found : EngineResult → EngineResult
or_not_found (value (some v)) = value (some v)
or_not_found (value none) = failure not_found
or_not_found (failure e) = failure e

module _ {S : Type 0} (store : Store S) where
  unfoldable pub call_storage_engine : Operation → S → EngineResult × S
  call_storage_engine (delete key) s = store.delete s key
  call_storage_engine (get key) s = let (r, s') = store.get s key in (or_not_found r, s')
  call_storage_engine (put key v) s = store.put s key v

-- self.writer.write_all(bytes); a write that fails is taken to have written nothing
abbrev pub write_all : {S : Type 0} → Bool → List ℕ → Conn S → Conn S
write_all write_ok bytes conn =
    if write_ok then record conn { output = conn.output ++ bytes } else conn

module _ (c : UuidCrate) {S : Type 0} (store : Store S) where
  open c use {Uuid}

  -- A step of the loop: its status, and the connection after it.
  abbrev pub Step : Type 0
  Step = Outcome ⊥ (KeepAliveStatus × Conn S)

  -- `send_response` drops the error of a write
  unfoldable pub send_response : Bool → Option Text → Uuid → Conn S → Step
  send_response write_ok v id conn = do
    bytes ← Response.to_bytes c (from_value id v)
    ok (keep_alive, write_all write_ok bytes conn)

  -- `send_internal_error_response` and `send_tcp_error_response`, with the match on their result
  unfoldable pub send_error : Bool → TcpResponse Uuid → Conn S → Step
  send_error write_ok response conn = do
    bytes ← Response.to_bytes c response
    ok (if write_ok then keep_alive else close_silent, write_all write_ok bytes conn)

  unfoldable pub handle_tcp_error : Bool → TcpError Uuid → Conn S → Step
  unfolding send_error
  handle_tcp_error write_ok (connection timed_out) conn = ok (close_notify, conn)
  handle_tcp_error write_ok (connection (io_error _)) conn = ok (close_silent, conn)
  handle_tcp_error write_ok (connection wrong_magic_bytes) conn = ok (close_silent, conn)
  handle_tcp_error write_ok (parse e) conn = send_error write_ok (from_tcp_parse_error e) conn

  -- the match on the result of `handle_tcp_request`
  unfoldable pub send_result : Bool → Uuid → EngineResult → Conn S → Step
  unfolding send_response send_error
  send_result write_ok id (value v) conn = send_response write_ok v id conn
  send_result write_ok id (failure e) conn = send_error write_ok (from_internal_error id e) conn

  unfoldable pub handle_tcp_request : TcpRequest Uuid → S → Outcome ⊥ (EngineResult × S)
  unfolding operation_of call_storage_engine
  handle_tcp_request request s = do
    op ← operation_of request.headers.request_type request.payload
    ok (call_storage_engine store op s)

  -- the match on the result of `recv_tcp_request`
  unfoldable pub handle_received : Bool → Outcome (TcpError Uuid) (TcpRequest Uuid) → Conn S → Step
  unfolding handle_tcp_error handle_tcp_request send_result
  handle_received write_ok (ok request) conn = do
    (result, engine) ← handle_tcp_request request conn.engine
    send_result write_ok request.headers.correlation_id result (record conn { engine = engine })
  handle_received write_ok (err e) conn = handle_tcp_error write_ok e conn
  handle_received write_ok panic conn = panic

  unfoldable pub recv_and_handle_tcp_request : Bool → ℕ → Conn S → Step
  unfolding handle_received
  recv_and_handle_tcp_request write_ok header_len conn =
      let (received, rest) = recv_tcp_request c header_len conn.stream in
      handle_received write_ok received (record conn { stream = rest })

  -- `recv_header_len`, where its read completes in time
  abbrev header_len_or_silent : Outcome (TcpError Uuid) ℕ → Outcome CloseMode ℕ
  header_len_or_silent (ok n) = ok n
  header_len_or_silent (err e) = err silent
  header_len_or_silent panic = panic

  unfoldable pub recv_header_len : Select → List ℕ → Outcome CloseMode ℕ × List ℕ
  recv_header_len timer_out stream = (err notify, stream)
  recv_header_len _ stream =
      let (len, rest) = read_u32 from_io stream in (header_len_or_silent len, rest)

  -- the match on the result of `recv_header_len`
  unfoldable pub handle_header_len : Bool → Outcome CloseMode ℕ → Conn S → Step
  unfolding recv_and_handle_tcp_request
  handle_header_len write_ok (ok n) conn = recv_and_handle_tcp_request write_ok n conn
  handle_header_len write_ok (err notify) conn = ok (close_notify, conn)
  handle_header_len write_ok (err silent) conn = ok (close_silent, conn)
  handle_header_len write_ok panic conn = panic

  -- the `select!`
  unfoldable pub select_status : Turn → Conn S → Step
  unfolding recv_header_len handle_header_len
  select_status t conn = elim t.select [
    | cancelled ↦ ok (close_notify, conn)
    | s ↦
        let (len, rest) = recv_header_len s conn.stream in
        handle_header_len t.write_ok len (record conn { stream = rest })
  ]

  -- `send_close_notification`, which drops the error of its write
  unfoldable pub send_close_notification : Bool → Conn S → Outcome ⊥ (Conn S)
  send_close_notification write_ok conn = do
    bytes ← Response.to_bytes c (create_close_notification c)
    ok (write_all write_ok bytes conn)

  abbrev closed_or_panicked : Outcome ⊥ (Conn S) → Run S
  closed_or_panicked (ok conn) = closed conn
  closed_or_panicked (err e) = panicked
  closed_or_panicked panic = panicked

  -- the match on the status, `next` being the rest of the loop
  unfoldable pub after_status : Bool → (Conn S → Run S) → Step → Run S
  unfolding send_close_notification
  after_status write_ok next (ok (keep_alive, conn)) = next conn
  after_status write_ok next (ok (close_notify, conn)) =
      closed_or_panicked (send_close_notification write_ok conn)
  after_status write_ok next (ok (close_silent, conn)) = closed conn
  after_status write_ok next (err e) = panicked
  after_status write_ok next panic = panicked

  unfoldable pub start : List Turn → Conn S → Run S
  unfolding select_status after_status
  start [] conn = running conn
  start (t ∷ turns) conn = after_status t.write_ok (start turns) (select_status t conn)
