-- ===== src/SsTable/Segment/Stores.antt =====
-- A segment and the entries of its file.
use rkvs.Base.{ℕ, ◌≡◌, List, ◌++◌, length, All}
use rkvs.SsTable.Entry.{SsTableEntry}
use rkvs.SsTable.EntryLaws.{IsStorable, block}
use rkvs.SsTable.Ordered.{Ascends}
use rkvs.SsTable.Segment.{Segment}
use rkvs.SsTable.Segment.File.{File}
use rkvs.SsTable.Segment.Divided.{Part, flatten, marks}

-- The bytes of the segment's file begin with these entries in the order of their keys, and its
-- index is that of some of them.
pub record Stores (s : Segment) (es : List SsTableEntry) : Type 0 where
  pub open_file : File
  pub contents : List ℕ
  pub rest : List ℕ
  pub first : List SsTableEntry
  pub parts : List Part
  pub file_eq : s.file ≡ open_file.read_at
  pub block_eq : contents ≡ block es ++ rest
  pub end_eq : s.data_block_end ≡ length (block es)
  pub parts_eq : es ≡ first ++ flatten parts
  pub index_eq : s.index.indices ≡ marks (length (block first)) parts
  pub storable : All IsStorable es
  pub ascends : Ascends es
