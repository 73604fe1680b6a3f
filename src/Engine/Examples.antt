-- ===== src/Engine/Examples.antt =====
-- A put and a delete on the engine at concrete values.
use mathlib.Core.Path.{subst}
use rkvs.Base.{List, arith, lengths, refl, sym, ◌≡◌, ◌<◌, ◌^◌, [], ◌∷◌, All, none, some, length, ok}
use rkvs.SsTable.Level.{LevelContainer}
use rkvs.Memtable.Examples.{tape, tape_laws, no_sum, count, key, value, begun, begun-IsFresh}
use rkvs.Memtable.WorkerLaws.{IsFresh}
use rkvs.Memtable.Worker.{Worker, flush_if_full}
use rkvs.SsTable.EntryLaws.{IsStorable, block}
use rkvs.SsTable.Flusher
use rkvs.SsTable.Flusher.Examples
use rkvs.SsTable.Flusher.Examples.{flusher, held, highest, not_newer}
use rkvs.SsTable.Segment.GetLaws.{get-lookup_entry}
use rkvs.SsTable.Writer.Examples.{
  can_open, complete, complete-Holds, no_failure, table, written, deleted, segment, segment_stores,
  distinct, segment-Holds, in_order, both-IsStorable, both_size,
}
use rkvs.Engine.FlushLaws.{IsWritable, flush_if_full-get}
use rkvs.Engine
use rkvs.Engine.Jobs.{Command}
use rkvs.Engine.JobsLaws.{Memory}
use rkvs.Engine.Laws.{Reads, Serves, running, put-get, delete-get}

abbrev no_tables : LevelContainer
no_tables = record { level_zero = []; level_zero_target_size = 100; partitioned_levels = [] }

put-get_example :
    Serves tape tape_laws 64
      (omega arith)
      (omega arith)
      67108864
      refl
      no_sum
      count
      100
      (λ w'.
        Reads tape tape_laws 64
          (omega arith)
          (omega arith)
          67108864
          refl
          no_sum
          count
          100
          no_tables
          key
          (some value)
          begun
          w'
        × IsFresh tape tape_laws 64 (omega arith) (omega arith) 67108864 refl no_sum count 100 w')
      (Engine.put tape 64 no_sum count 100 key value (
        running tape tape_laws 64 (omega arith) (omega arith) 67108864 refl no_sum count 100 begun))
put-get_example =
    put-get tape tape_laws 64 (omega arith) (omega arith) 67108864 refl no_sum count 100 no_tables
      key value begun begun-IsFresh (omega arith) (omega arith) (omega lengths) (omega lengths)

delete-get_example :
    Serves tape tape_laws 64
      (omega arith)
      (omega arith)
      67108864
      refl
      no_sum
      count
      100
      (λ w'.
        Reads tape tape_laws 64
          (omega arith)
          (omega arith)
          67108864
          refl
          no_sum
          count
          100
          no_tables
          key
          none
          begun
          w'
        × IsFresh tape tape_laws 64 (omega arith) (omega arith) 67108864 refl no_sum count 100 w')
      (Engine.delete tape 64 no_sum count 100 key (
        running tape tape_laws 64 (omega arith) (omega arith) 67108864 refl no_sum count 100 begun))
delete-get_example =
    delete-get tape tape_laws 64 (omega arith) (omega arith) 67108864 refl no_sum count 100
      no_tables key begun begun-IsFresh (omega arith) (omega arith) (omega lengths) (omega lengths)

-- a memtable that is full, over levels that have a segment
abbrev full : Worker tape 64 no_sum (Flusher.flush can_open complete no_failure 2) 100
full = record { table = table; wal = begun.wal; flusher = flusher; current_size = 100 }

full-IsWritable : IsWritable tape 64 no_sum 100 can_open complete no_failure 2 full
full-IsWritable = record {
  nonempty = λ e. cc;
  few = omega arith;
  distinct = distinct;
  storable = subst (λ l. All IsStorable l) (sym in_order) both-IsStorable;
  size = subst (λ l. length (block l) < 2 ^ 64) (sym in_order) both_size;
  numbered = omega (arith, highest);
  new_file = λ name e. refl;
}

flush_if_full-get_example :
    (w' : Worker tape 64 no_sum (Flusher.flush can_open complete no_failure 2) 100) × (flush_if_full
        tape 64 no_sum
        (Flusher.flush can_open complete no_failure 2)
        100
        full
      ≡ (ok tt, w'))
    × (w'.table ≡ [])
    × (w'.current_size ≡ 0)
    × (Engine.get w'.table w'.flusher.container Examples.key
        ≡ Engine.get full.table full.flusher.container Examples.key)
flush_if_full-get_example =
    flush_if_full-get tape 64 no_sum 100 can_open complete no_failure 2 full Examples.key held
      complete-Holds (λ name. (refl, refl, refl)) (λ written bytes. refl) (omega arith)
      (omega arith) full-IsWritable
      (
        get-lookup_entry segment (written ∷ (deleted ∷ [])) Examples.key segment_stores
            segment-Holds,
        tt,
      )
      (not_newer, tt)

-- a put, a get of the key, a delete and another get
abbrev jobs : List Command
jobs = Command.put key value ∷ (Command.get key ∷ (Command.delete key ∷ (Command.get key ∷ [])))

-- nothing is in memory
abbrev nothing : Memory
nothing k = none
