-- ===== src/SsTable/Writer.antt =====
-- `SegmentWriter` of src/storage_engine/sstable/level/segment.rs.
pub mod Flush
pub mod SortLaws
pub mod FlushLaws
pub mod EntryLaws
pub mod IndexLaws
pub mod Laws
pub mod Examples
use rkvs.Base.{
  ℕ, ◌+◌, ◌*◌, ◌%◌, ◌^◌, List, [], ◌++◌, Bool, true, false, not, Option, none, some, length, drop,
  ltb, leb, ◌==◌, if◌then◌else◌, Outcome, ok, err, panic, assert, le_bytes, Text, IoError,
}
use rkvs.Base
use rkvs.SsTable.Output.{Output, WriteFails, write_all}
use rkvs.Base.Io.{Io, ◌>>=◌, ◌>>◌, pure, get, modify}
use rkvs.SsTable.Entry.{SsTableEntry, to_bytes}
use rkvs.SsTable.Index
use rkvs.SsTable.Index.{SegmentIndex, add_index, footer_to_bytes, segment_footer_len}
use rkvs.SsTable.Filename.{determine_segment_filename}

-- SEGMENT_SIZE
abbrev pub segment_size : ℕ
segment_size = 1024 * 1024 * 64

pub record SegmentWriter : Type 0 where
  pub output : Output
  pub filepath : Text
  pub curr_size : ℕ
  pub index_sparsity_factor : ℕ
  pub index : SegmentIndex
  pub target_size : ℕ
  pub entries_written : ℕ
  pub finished : Bool

-- SegmentWriter::create_new_segment: what the file holds if it is there already, and its length as
-- the size to go on from
unfoldable pub create_new_segment :
    ℕ → ℕ → ℕ → (Text → Outcome IoError (List ℕ)) → Outcome IoError SegmentWriter
create_new_segment level_number segment_number index_sparsity_factor open_file =
    Base.◌>>=◌ (determine_segment_filename level_number segment_number) λ filename.
      Base.◌>>=◌ (open_file filename) λ old. ok (record {
        output = record { old = old; written = [] };
        filepath = filename;
        curr_size = length old;
        index_sparsity_factor = index_sparsity_factor;
        index = Index.new;
        target_size = segment_size;
        entries_written = 0;
        finished = false;
      })

-- SegmentWriter::reached_target_size
unfoldable pub reached_target_size : SegmentWriter → Bool
reached_target_size w = leb w.target_size (w.curr_size + w.index.len + segment_footer_len)

module _ (fails : WriteFails) where
  -- a write to the writer's file
  abbrev pub put : List ℕ → Io SegmentWriter IoError (Unit {0})
  put bytes w = let (r, o) = write_all fails bytes w.output in (r, record w { output = o })

  -- what write_entry counts, for an entry of `n` bytes
  abbrev pub counted : SsTableEntry → ℕ → SegmentWriter → SegmentWriter
  counted e n w = record w {
    entries_written = w.entries_written + 1;
    index =
        if (w.entries_written + 1) % w.index_sparsity_factor == 0
        then add_index w.index e.key w.curr_size
        else w.index;
    curr_size = w.curr_size + (n + 4);
  }

  -- SegmentWriter::write_entry; a remainder by 0 is a panic
  unfoldable pub write_entry : SsTableEntry → Io SegmentWriter IoError (Unit {0})
  unfolding write_all
  write_entry e = do
    w ← get
    pure (assert (not w.finished))
    bytes ← pure (to_bytes e)
    put (le_bytes 4 (length bytes))
    put bytes
    pure (assert (ltb 0 w.index_sparsity_factor))
    modify (counted e (length bytes))

  -- SegmentWriter::write_index_and_footer
  unfoldable pub write_index_and_footer : Io SegmentWriter IoError (Unit {0})
  unfolding write_all
  write_index_and_footer = do
    w ← get
    pure (assert (not w.finished))
    index_bytes ← pure (Index.to_bytes w.index)
    put index_bytes
    footer_bytes ← pure (footer_to_bytes (record { index_offset = w.curr_size }))
    put footer_bytes
    put []
    modify (λ w. record w { finished = true })
