-- ===== src/SsTable/Output.antt =====
-- The file that a segment is written to, and the writes to it.
use rkvs.Base.{ℕ, List, ◌++◌, Option, none, some, length, drop, Outcome, ok, err, Text, IoError}
use rkvs.Base.Io.{Io, ◌>>=◌, ◌>>◌, pure, get, modify}

-- A file that is written from its start: what it held when it was opened, which is not cut off, and
-- the bytes written since.
pub record Output : Type 0 where
  pub old : List ℕ
  pub written : List ℕ

abbrev pub contents : Output → List ℕ
contents o = o.written ++ drop (length o.written) o.old

-- Whether a write of these bytes behind those that are written fails. A flush is a write of
-- nothing.
abbrev pub WriteFails : Type 0
WriteFails = List ℕ → List ℕ → Option IoError

-- Whether a file cannot be opened under a name, to be written or to be read, and whether its
-- metadata cannot be read.
pub record OpenFails : Type 0 where
  pub to_write : Text → Option IoError
  pub to_read : Text → Option IoError
  pub metadata : Text → Option IoError

abbrev pub failed : Option IoError → Outcome IoError (Unit {0})
failed none = ok tt
failed (some e) = err e

-- Write::write_all; a write that fails has written nothing
unfoldable pub write_all : WriteFails → List ℕ → Io Output IoError (Unit {0})
write_all fails bytes = do
  o ← get
  pure (failed (fails o.written bytes))
  modify (λ o. record o { written = o.written ++ bytes })
