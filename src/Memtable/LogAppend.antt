-- ===== src/Memtable/LogAppend.antt =====
-- `Wal::append` on a log that holds entries: it then holds one more, behind the others.
use rkvs.Base.{ℕ, ◌*◌, ◌^◌, ◌<◌, ◌≡◌, refl, arith, List, [], none}
use rkvs.Base.Io.{Safe, Safe_map}
use rkvs.Wal.Segment
use rkvs.Wal.Segment.{FileSystem, State}
use rkvs.Wal.DiskLaws.{DiskLaws, Rotated, rotate-Rotated}
use rkvs.Wal.Append.{rotate, create_new}
use rkvs.Memtable.LogCases.{IsLogged}

module _ (fs : FileSystem) (disk : DiskLaws fs) (checksum : List ℕ → ℕ) (size : ℕ)
    (size_pos : 0 < size) where
  -- A new log is begun without a panic. If the file system does not fail, its file holds no entry.
  -- The segment size divides 2 ^ 32.
  pub create_new-IsLogged :
      (k : ℕ) (s : State fs)
      → k * size ≡ 2 ^ 32
      → Safe (λ _ s'. IsLogged fs disk checksum size size_pos [] s') (create_new fs size s)
  unfolding create_new
  create_new-IsLogged k s divides =
      Safe_map (λ _ s'. Rotated fs disk size 0 s s')
        (λ _ s'. IsLogged fs disk checksum size size_pos [] s') (rotate fs size 0 s)
        (λ _ s' r. record {
          done = [];
          carried = none;
          whole = [];
          number = r.number;
          at_end = record {
            stored = record {
              follows = refl;
              before = tt;
              ascends = tt;
              on_disk = tt;
              filled = tt;
            };
            loggable = tt;
            starts = r.starts;
            max_eq = r.max_eq;
            named = r.named;
            here = r.here;
            size_eq = r.size_eq;
            fits = omega (arith, r.size_eq);
          };
          entries = refl;
        })
        (rotate-Rotated fs disk size k 0 s size_pos divides (omega arith))
