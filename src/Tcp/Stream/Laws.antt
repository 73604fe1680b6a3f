-- ===== src/Tcp/Stream/Laws.antt =====
-- Reads from a stream whose front is known.
use rkvs.Base.{
  ℕ, ◌<◌, ◌^◌, ◌≡◌, List, ◌++◌, length, lengths, ok, err, IoError, unexpected_eof, be_bytes,
  from_be-be_bytes, take_left, drop_left, le→leb, lt→not-leb,
}
use rkvs.Tcp.Stream.{read_exact, read_u32}

module _ {E : Type 0} (from : IoError → E) where
  pub read_exact-append :
      (n : ℕ) (xs rest : List ℕ) → n ≡ length xs → read_exact from n (xs ++ rest) ≡ (ok xs, rest)
  unfolding read_exact
  read_exact-append n xs rest e =
      rw (
        le→leb n (length (xs ++ rest)) (omega lengths),
        take_left n xs rest e,
        drop_left n xs rest e,
      )

  -- A stream that ends too early is an error.
  pub read_exact_short :
      (n : ℕ) (s : List ℕ)
      → length s < n
      → read_exact from n s ≡ (err (from unexpected_eof), List.[])
  unfolding read_exact
  read_exact_short n s h = rw (lt→not-leb n (length s) h)

  pub read_u32-append :
      (n : ℕ) (rest : List ℕ) → n < 2 ^ 32 → read_u32 from (be_bytes 4 n ++ rest) ≡ (ok n, rest)
  unfolding read_u32
  read_u32-append n rest h =
      rw (read_exact-append 4 (be_bytes 4 n) rest (omega lengths), from_be-be_bytes 4 n h)
