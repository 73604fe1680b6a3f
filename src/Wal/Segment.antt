-- ===== src/Wal/Segment.antt =====
-- The active segment of the log and how it is written: `Segment` of
-- src/storage_engine/memtable/wal/segment.rs. `u32` arithmetic is checked: an overflow is a panic.
use rkvs.Base.{
  ℕ, ◌+◌, ◌-◌, ◌%◌, ◌^◌, List, Option, none, some, length, leb, Outcome, ok, err, assert, zeroed,
  Text, IoError,
}
use rkvs.Base
use rkvs.Base.Io.{Io, ◌>>=◌, ◌>>◌, pure, get, modify}
use rkvs.Wal.Filename.{base_lsn}

-- What std::fs gives the log. A file is addressed by its path; the disk is what the calls leave.
pub record FileSystem : Type 1 where
  pub Disk : Type 0
  pub create : Text → Disk → Option IoError × Disk
  pub write_all : Text → List ℕ → Disk → Option IoError × Disk
  pub file_len : Text → Disk → ℕ

pub record Segment : Type 0 where
  pub file_path : Text
  pub file_size : ℕ
  pub max_size : ℕ
  pub base_lsn : ℕ

-- a call returns an error, or nothing
abbrev pub result : Option IoError → Outcome IoError (Unit {0})
result none = ok tt
result (some e) = err e

-- Segment::from of a file that was opened, and is written to at its end
unfoldable pub from : Text → ℕ → ℕ → Outcome IoError Segment
from path file_size max_size = Base.◌>>=◌ (base_lsn path max_size) λ base.
    ok (record { file_path = path; file_size = file_size; max_size = max_size; base_lsn = base })

module _ (fs : FileSystem) where
  pub record State : Type 0 where
    pub disk : fs.Disk
    pub active_segment : Segment

  abbrev pub on_disk : (fs.Disk → Option IoError × fs.Disk) → Io State IoError (Unit {0})
  on_disk call s =
      (result (call s.disk).0, record { disk = (call s.disk).1; active_segment = s.active_segment })

  abbrev pub grow : ℕ → Segment → Segment
  grow n g = record {
    file_path = g.file_path;
    file_size = g.file_size + n;
    max_size = g.max_size;
    base_lsn = g.base_lsn;
  }

  abbrev pub grown : ℕ → State → State
  grown n s = record { disk = s.disk; active_segment = grow n s.active_segment }

  -- Segment::append
  unfoldable pub append : List ℕ → Io State IoError (Unit {0})
  append buf = do
    s ← get
    let buf_size = length buf % 2 ^ 32
    pure (assert (leb (s.active_segment.file_size + buf_size) s.active_segment.max_size))
    on_disk (fs.write_all s.active_segment.file_path buf)
    modify (grown buf_size)

  -- Segment::remaining_space
  unfoldable pub remaining_space : Io State IoError ℕ
  remaining_space = do
    s ← get
    pure (assert (leb s.active_segment.file_size s.active_segment.max_size))
    pure (ok (s.active_segment.max_size - s.active_segment.file_size))

  -- Segment::pad
  unfoldable pub pad : Io State IoError (Unit {0})
  unfolding append
  pad = do buf_size ← remaining_space; append (zeroed buf_size)

  -- Segment::new of the file that was made at this path
  unfoldable pub new : Text → ℕ → Io State IoError Segment
  new path max_size = do
    s ← get
    base ← pure (base_lsn path max_size)
    pure (
        ok (record {
          file_path = path;
          file_size = fs.file_len path s.disk % 2 ^ 32;
          max_size = max_size;
          base_lsn = base;
        }))

-- Segment::next_lsn
abbrev pub next_lsn : Segment → ℕ
next_lsn g = g.base_lsn + g.file_size
