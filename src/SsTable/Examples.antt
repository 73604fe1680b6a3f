-- ===== src/SsTable/Examples.antt =====
-- Entries, blocks and an index at concrete values.
use rkvs.Base.{
  ℕ, zero, suc, ◌<◌, ◌≡◌, refl, arith, List, [], ◌∷◌, true, none, some, length, get_elem?, ok,
  is_utf8, IsUtf8, text_lt, text_le, take, drop, All, copy_to, slice, index, from_le,
  from_utf8_unwrap, text_eq, Option,
}
use rkvs.SsTable.Segment
use rkvs.SsTable.Segment.{Segment, fill_loop}
use rkvs.SsTable.Level.{overlapping_get}
use rkvs.SsTable.LevelLaws.{AtMost, IsFound, overlapping_get-newest}
use rkvs.SsTable.Index.{find_in, search_loop, neighbours}
use rkvs.SsTable.Entry.{read_value}
use rkvs.SsTable.Entry.{SsTableEntry, len, to_bytes, from_bytes, vec_from_bytes}
use rkvs.SsTable.EntryLaws.{IsStorable, from_bytes-to_bytes, block, vec_from_bytes-block}
use rkvs.SsTable.Index.{SegmentIndexEntry, binary_search}
use rkvs.SsTable.Index.Search.{IsAscending, Locates, binary_search-Locates}

-- "a" with the value "x", and "b" deleted
abbrev written : SsTableEntry
written = record { key = b'a' ∷ []; value = some (b'x' ∷ []); sequence_number = 5 }

abbrev deleted : SsTableEntry
deleted = record { key = b'b' ∷ []; value = none; sequence_number = 6 }

ascii : (b : ℕ) → b < 0x80 → IsUtf8 (b ∷ [])
unfolding is_utf8
ascii b h = ground arith

written-IsStorable : IsStorable written
written-IsStorable = record {
  key = ascii b'a' (omega arith);
  value = ascii b'x' (omega arith);
  sequence_number = omega arith;
  size = omega arith;
}

deleted-IsStorable : IsStorable deleted
deleted-IsStorable = record {
  key = ascii b'b' (omega arith);
  value = tt;
  sequence_number = omega arith;
  size = omega arith;
}

from_bytes-to_bytes_example :
    (bytes : List ℕ) × (to_bytes {E = Unit} written ≡ ok bytes)
    × (length bytes ≡ len 1 (some (b'x' ∷ [])))
    × (from_bytes {E = Unit} bytes ≡ ok written)
from_bytes-to_bytes_example = from_bytes-to_bytes written written-IsStorable

vec_from_bytes-block_example :
    vec_from_bytes {E = Unit} (block (written ∷ deleted ∷ [])) ≡ ok (written ∷ deleted ∷ [])
vec_from_bytes-block_example =
    vec_from_bytes-block (written ∷ deleted ∷ []) (written-IsStorable, (deleted-IsStorable, tt))

abbrev at_a : SegmentIndexEntry
at_a = record { key = b'a' ∷ []; offset = 0 }

abbrev at_c : SegmentIndexEntry
at_c = record { key = b'c' ∷ []; offset = 40 }

abbrev two : List SegmentIndexEntry
two = at_a ∷ at_c ∷ []

a-c : text_lt (b'a' ∷ []) (b'c' ∷ []) ≡ true
unfolding text_lt
a-c = refl

ordered :
    (i j : ℕ) (e f : SegmentIndexEntry)
    → i < j
    → get_elem? two i ≡ some e
    → get_elem? two j ≡ some f
    → text_lt e.key f.key ≡ true
ordered zero zero e f h he hf = absurd (omega arith)
ordered zero (suc zero) e f h he hf = grind (arith, a-c)
ordered zero (suc (suc j)) e f h he hf = cc
ordered (suc i) zero e f h he hf = absurd (omega arith)
ordered (suc zero) (suc zero) e f h he hf = absurd (omega arith)
ordered (suc (suc i)) (suc zero) e f h he hf = absurd (omega arith)
ordered (suc i) (suc (suc j)) e f h he hf = cc

two-IsAscending : IsAscending two
two-IsAscending = record { at = ordered }

a_low : text_le (b'a' ∷ []) (b'b' ∷ []) ≡ true
unfolding text_le
a_low = refl

binary_search-Locates_example :
    (i : ℕ) × (e : SegmentIndexEntry) × (binary_search {E = Unit} two (b'b' ∷ []) ≡ ok (e, i))
    × (get_elem? two i ≡ some e)
    × Locates two (b'b' ∷ []) i
binary_search-Locates_example =
    binary_search-Locates two (b'b' ∷ []) two-IsAscending at_a refl a_low

-- a file of one entry: the key "a", the value "x", and a sequence number
abbrev contents : ℕ → List ℕ
contents n =
    19 ∷ 0 ∷ 0 ∷ 0 ∷ 1 ∷ 0 ∷ 0 ∷ 0 ∷ b'a' ∷ 1 ∷ 0 ∷ 0 ∷ 0 ∷ 0 ∷ b'x' ∷ n ∷ 0 ∷ 0 ∷ 0 ∷ 0 ∷ 0 ∷ 0 ∷ 0
    ∷ []

abbrev segment_of : ℕ → Segment
segment_of n = record {
  file = λ offset size. ok (take size (drop offset (contents n)));
  index = record { indices = at_a ∷ []; len = 13 };
  size = 60;
  number = n;
  level_number = 0;
  filepath = [];
  data_block_end = 23;
  first_key = b'a' ∷ [];
  last_key = b'a' ∷ [];
  highest_sequence_no = n;
}

abbrev numbered : Segment → Option SsTableEntry
numbered s =
    some (record {
      key = b'a' ∷ [];
      value = some (b'x' ∷ []);
      sequence_number = s.highest_sequence_no;
    })

get_6 : Segment.get (segment_of 6) (b'a' ∷ []) ≡ ok (numbered (segment_of 6))
unfolding Segment.get find_in binary_search search_loop neighbours text_lt text_eq text_le fill_loop
    copy_to slice index from_le from_bytes read_value from_utf8_unwrap is_utf8
get_6 = refl

get_5 : Segment.get (segment_of 5) (b'a' ∷ []) ≡ ok (numbered (segment_of 5))
unfolding Segment.get find_in binary_search search_loop neighbours text_lt text_eq text_le fill_loop
    copy_to slice index from_le from_bytes read_value from_utf8_unwrap is_utf8
get_5 = refl

overlapping_get-newest_example :
    (r : Option SsTableEntry) × (overlapping_get (segment_of 6 ∷ segment_of 5 ∷ []) (b'a' ∷ [])
      ≡ ok r)
    × All (λ s. AtMost (numbered s) r) (segment_of 6 ∷ segment_of 5 ∷ [])
    × IsFound (b'a' ∷ []) numbered r (segment_of 6 ∷ segment_of 5 ∷ [])
overlapping_get-newest_example =
    overlapping_get-newest (b'a' ∷ []) numbered (segment_of 6 ∷ segment_of 5 ∷ [])
      (get_6, (get_5, tt))
