-- ===== src/SsTable/Merge/Sort.antt =====
-- `merge_sort` of src/storage_engine/sstable/level.rs. The buffers stand in a list; the HashMap
-- that gives them their numbers is the list of the pairs in it, in the order in which it is walked
-- through.
use rkvs.Base.{
  ℕ, zero, suc, List, [], ◌∷◌, ◌++◌, Bool, true, false, ◌||◌, ◌==◌, Option, none, some,
  if◌then◌else◌, Outcome, ok, ◌>>=◌, unwrap, Text, text_eq, text_lt, text_le, get_elem?, IoError,
}
use rkvs.SsTable.Entry.{SsTableEntry}
use rkvs.SsTable.Segment.ReadBuf.{SegmentReadBuf, front, back, pop_front}

-- the map, from a number to the place of a buffer
abbrev pub Live : Type 0
Live = List (ℕ × ℕ)

-- the buffers, those that are still in the map, and the entries that are put out
pub record Merging : Type 0 where
  pub bufs : List SegmentReadBuf
  pub live : Live
  pub res : List SsTableEntry

-- the numbers of the buffers with the key at hand, and of those with the key behind it
pub record Indices : Type 0 where
  pub curr : List ℕ
  pub next : List ℕ

abbrev pub first : List ℕ → Option ℕ
first [] = none
first (i ∷ is) = some i

-- HashMap::get, HashMap::remove and HashMap::insert of a number that is not in the map
unfoldable pub place_of : ℕ → Live → Option ℕ
place_of i [] = none
place_of i ((j, p) ∷ live) = let rest = place_of i live in if i == j then some p else rest

unfoldable pub without : ℕ → Live → Live
without i [] = []
without i ((j, p) ∷ live) = let rest = without i live in if i == j then live else (j, p) ∷ rest

unfoldable pub put_at : ℕ → SegmentReadBuf → List SegmentReadBuf → List SegmentReadBuf
put_at p b [] = []
put_at zero b (c ∷ bufs) = b ∷ bufs
put_at (suc p) b (c ∷ bufs) = c ∷ put_at p b bufs

-- buf.front().unwrap() and buf.back().unwrap()
unfoldable pub front_at : ℕ → List SegmentReadBuf → Outcome IoError SsTableEntry
front_at p bufs = do b ← unwrap (get_elem? bufs p); unwrap (front b)

unfoldable pub back_at : ℕ → List SegmentReadBuf → Outcome IoError SsTableEntry
back_at p bufs = do b ← unwrap (get_elem? bufs p); unwrap (back b)

-- the front of a buffer, which may be empty
unfoldable pub peek_at : ℕ → List SegmentReadBuf → Outcome IoError (Option SsTableEntry)
peek_at p bufs = do b ← unwrap (get_elem? bufs p); ok (front b)

-- buf.pop_front().unwrap()
unfoldable pub pop_at :
    ℕ → List SegmentReadBuf → Outcome IoError (SsTableEntry × List SegmentReadBuf)
pop_at p bufs = do
  b ← unwrap (get_elem? bufs p)
  (popped, b') ← pop_front b
  e ← unwrap popped
  ok (e, put_at p b' bufs)

-- the key at the front of the buffer of a number
unfoldable pub key_of : ℕ → Live → List SegmentReadBuf → Outcome IoError Text
unfolding place_of front_at
key_of i live bufs = do p ← unwrap (place_of i live); e ← front_at p bufs; ok e.key

-- The first loop, on a buffer with the key `key` at its front: the numbers of the smallest and the
-- next keys.
unfoldable pub sort_in_next : ℕ → Text → Option Text → List ℕ → List ℕ
sort_in_next i key none next = next ++ i ∷ []
sort_in_next i key (some next_key) next =
    let cleared = if text_lt key next_key then [] else next in
    if text_le key next_key then cleared ++ i ∷ [] else cleared

-- the key of the first of some numbers
unfoldable pub first_key : List ℕ → Live → List SegmentReadBuf → Outcome IoError (Option Text)
unfolding key_of
first_key [] live bufs = ok none
first_key (i ∷ is) live bufs = do key ← key_of i live bufs; ok (some key)

unfoldable pub sort_in :
    ℕ → Text → Text → Option Text → Live → List SegmentReadBuf → Indices → Outcome IoError Indices
unfolding sort_in_next first_key
sort_in i key smallest none live bufs x = ok (record x { curr = x.curr ++ i ∷ [] })
sort_in i key smallest (some curr_key) live bufs x =
    if text_le key curr_key
    then ok (
        if text_eq curr_key key
        then record x { curr = x.curr ++ i ∷ [] }
        else record { curr = i ∷ []; next = x.curr })
    else if text_le key smallest
    then (do
      next_key ← first_key x.next live bufs
      ok (record x { next = sort_in_next i key next_key x.next }))
    else ok x

abbrev pub is_empty_text : Text → Bool
is_empty_text [] = true
is_empty_text (c ∷ cs) = false

-- the smallest of the last keys, so far
abbrev pub smaller_key : Text → Text → Text
smaller_key smallest key = if is_empty_text smallest || text_lt key smallest then key else smallest

unfoldable pub scan :
    Live → List SegmentReadBuf → Live → Text → Indices → Outcome IoError (Text × Indices)
unfolding front_at back_at first_key sort_in
scan live bufs [] smallest x = ok (smallest, x)
scan live bufs ((i, p) ∷ more) smallest x = do
  last ← back_at p bufs
  let smallest' = smaller_key smallest last.key
  e ← front_at p bufs
  curr_key ← first_key x.curr live bufs
  x' ← sort_in i e.key smallest' curr_key live bufs x
  scan live bufs more smallest' x'

-- read_bufs.retain
unfoldable pub retain : Text → List SegmentReadBuf → Live → Outcome IoError Live
unfolding front_at
retain smallest bufs [] = ok []
retain smallest bufs ((i, p) ∷ live) = do
  e ← front_at p bufs
  kept ← retain smallest bufs live
  ok (if text_le e.key smallest then (i, p) ∷ kept else kept)

-- the numbers that are still in the map
unfoldable pub still_in : Live → List ℕ → List ℕ
unfolding place_of
still_in live [] = []
still_in live (i ∷ is) =
    let rest = still_in live is in elim (place_of i live) [ some p ↦ i ∷ rest | none ↦ rest ]
