-- ===== src/SsTable/Segment/Examples.antt =====
-- A buffer that reads a segment of two entries, from a file whose reads are short.
use rkvs.Base.{ℕ, refl, arith, inl, inr, List, [], ◌∷◌, take, drop, ok}
use rkvs.SsTable.Entry.{SsTableEntry}
use rkvs.SsTable.Segment.File.{File, ReadsSome}
use rkvs.SsTable.Segment.ReadBuf
use rkvs.SsTable.Segment.ReadBuf.{SegmentReadBuf, fill}
use rkvs.SsTable.Segment.BufLaws.{IsReading, Filled, fill-IsReading}
use rkvs.SsTable.Writer.Examples.{complete, written, deleted, segment, segment_stores}

-- a file that gives one byte at a time
abbrev one_byte : List ℕ → List ℕ
one_byte [] = []
one_byte (b ∷ bytes) = b ∷ []

abbrev slow_file : File
slow_file = record (complete segment_stores.contents) {
  read_at = λ offset n. ok (one_byte (take n (drop offset segment_stores.contents)));
}

one_byte-ReadsSome : (bytes : List ℕ) → ReadsSome bytes (ok (one_byte bytes))
one_byte-ReadsSome [] = ([], refl, inr refl)
one_byte-ReadsSome (b ∷ bytes) = (bytes, refl, inl (omega arith))

abbrev entries : List SsTableEntry
entries = written ∷ (deleted ∷ [])

abbrev fresh : SegmentReadBuf
fresh = ReadBuf.new (record segment { file = slow_file.read_at }) 30

abbrev fresh_reading : IsReading entries [] fresh
fresh_reading = record {
  stores = record {
    open_file = slow_file;
    contents = segment_stores.contents;
    rest = segment_stores.rest;
    first = segment_stores.first;
    parts = segment_stores.parts;
    file_eq = refl;
    block_eq = segment_stores.block_eq;
    end_eq = segment_stores.end_eq;
    parts_eq = segment_stores.parts_eq;
    index_eq = segment_stores.index_eq;
    storable = segment_stores.storable;
    ascends = segment_stores.ascends;
  };
  reads = λ offset n. one_byte-ReadsSome (take n (drop offset segment_stores.contents));
  footer = omega arith;
  ahead = entries;
  split = refl;
  offset_eq = refl;
  size_eq = refl;
  room = omega arith;
}

fill-IsReading_example : Filled entries [] fresh fresh_reading (fill fresh)
fill-IsReading_example = fill-IsReading entries [] fresh fresh_reading
