-- ===== src/SsTable/Flusher/Examples.antt =====
-- A flush into levels that have a segment already.
use mathlib.Core.Path.{subst}
use rkvs.Base.{◌<◌, ◌^◌, ◌≡◌, refl, sym, arith, [], ◌∷◌, All, false, length, text_eq, Text, Option}
use rkvs.Base.Io.{Ends}
use rkvs.SsTable.Entry.{SsTableEntry}
use rkvs.SsTable.EntryLaws.{IsStorable, block}
use rkvs.SsTable.Level
use rkvs.SsTable.Level.{highest_from, highest_segment_number}
use rkvs.SsTable.Ordered.{lookup_entry}
use rkvs.SsTable.Segment.{Segment}
use rkvs.SsTable.Segment.GetLaws.{get-lookup_entry}
use rkvs.SsTable.Flusher.{Flusher, flush}
use rkvs.SsTable.Flusher.Laws.{NotNewer, table_or, flush-get}
use rkvs.SsTable.Writer.Laws.{FlushFailed}
use rkvs.SsTable.Writer.Examples.{
  can_open, complete, complete-Holds, no_failure, table, written, deleted, segment, segment_stores,
  distinct, segment-Holds, in_order, both-IsStorable, both_size,
}
use rkvs.Memtable.Table.{lookup}

abbrev pub key : Text
key = b'a' ∷ []

-- segment 7 is there
abbrev pub flusher : Flusher
flusher = record {
  container = record {
    level_zero = segment ∷ [];
    level_zero_target_size = 1000;
    partitioned_levels = [];
  };
  files = λ name. [];
  notified = false;
}

pub highest : highest_segment_number (segment ∷ []) ≡ 7
unfolding highest_segment_number highest_from
highest = refl

abbrev pub held : Segment → Option SsTableEntry
held s = lookup_entry key (written ∷ (deleted ∷ []))

pub not_newer : NotNewer (lookup key table) (lookup_entry key (written ∷ (deleted ∷ [])))
unfolding lookup text_eq
not_newer = omega arith

flush-get_example :
    Ends
      (FlushFailed can_open no_failure)
      (λ _ f'.
        Level.get f'.container key
        ≡ table_or key (lookup key table) (Level.get flusher.container key))
      (flush can_open complete no_failure 2 table flusher)
flush-get_example =
    flush-get can_open complete no_failure 2 table flusher complete-Holds (omega arith) (λ e. cc)
      (omega arith) distinct (subst (λ l. All IsStorable l) (sym in_order) both-IsStorable)
      (subst (λ l. length (block l) < 2 ^ 64) (sym in_order) both_size) (omega (arith, highest)) key
      held (λ name e. refl)
      (get-lookup_entry segment (written ∷ (deleted ∷ [])) key segment_stores segment-Holds, tt)
      (not_newer, tt)
