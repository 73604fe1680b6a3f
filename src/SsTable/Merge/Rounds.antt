-- ===== src/SsTable/Merge/Rounds.antt =====
-- The second loop of `merge_sort` of src/storage_engine/sstable/level.rs, and the function itself.
use rkvs.Base.{
  ℕ, zero, suc, List, [], ◌∷◌, ◌++◌, Bool, true, false, ◌&&◌, ◌||◌, Option, none, some, length, ltb,
  if◌then◌else◌, Outcome, ok, err, panic, ◌>>=◌, unwrap, Text, text_eq, text_lt, text_le, get_elem?,
  IoError,
}
use rkvs.SsTable.Entry.{SsTableEntry}
use rkvs.SsTable.Segment.ReadBuf.{SegmentReadBuf}
use rkvs.SsTable.Merge.Sort.{
  Live, Merging, Indices, place_of, without, front_at, peek_at, pop_at, first_key, scan, retain,
  still_in,
}

-- the places of the buffers that are taken out of the map, and the map without them
unfoldable pub take_out : List ℕ → Live → List ℕ × Live
unfolding place_of without
take_out [] live = ([], live)
take_out (i ∷ is) live = elim (place_of i live) [
  | some p ↦ (let (places, left) = take_out is (without i live) in (p ∷ places, left))
  | none ↦ take_out is live
]

-- whether a key stands before the next one, or before the end
unfoldable pub stands_before : Option Text → Text → Text → Bool
stands_before none smallest key = text_le key smallest
stands_before (some next_key) smallest key = text_lt key next_key

-- One buffer has the key: its entries in front of the next key are put out. The fuel is the entries
-- of the buffer.
unfoldable pub run_single : ℕ → ℕ → Option Text → Text → Merging → Outcome IoError Merging
unfolding peek_at pop_at
run_single zero p next_key smallest m = ok m
run_single (suc fuel) p next_key smallest m = do
  found ← peek_at p m.bufs
  elim found [
    | none ↦ ok m
    | some e ↦ elim (stands_before next_key smallest e.key) [
      | true ↦ do
        (popped, bufs) ← pop_at p m.bufs
        run_single fuel p next_key smallest (record m { bufs = bufs; res = m.res ++ popped ∷ [] })
      | false ↦ ok m
    ]
  ]

-- Several buffers have the key: the fronts are popped, and the newest one is kept.
unfoldable pub pop_newest :
    List ℕ
    → SsTableEntry
    → List SegmentReadBuf
    → Outcome IoError (SsTableEntry × List SegmentReadBuf)
unfolding pop_at
pop_newest [] curr bufs = ok (curr, bufs)
pop_newest (p ∷ places) curr bufs = do
  (e, bufs) ← pop_at p bufs
  pop_newest places (if ltb curr.sequence_number e.sequence_number then e else curr) bufs

-- whether an entry comes before the one found so far
abbrev pub replaces : Text → Option SsTableEntry → SsTableEntry → Bool
replaces smallest none e = text_le e.key smallest
replaces smallest (some n) e =
    text_lt e.key n.key || (text_eq e.key n.key && ltb n.sequence_number e.sequence_number)

-- the entry with the smallest key among the fronts, the newest of these
unfoldable pub find_next :
    Text
    → List ℕ
    → List SegmentReadBuf
    → Option SsTableEntry
    → Outcome IoError (Option SsTableEntry)
unfolding peek_at
find_next smallest [] bufs found = ok found
find_next smallest (p ∷ places) bufs found = do
  peeked ← peek_at p bufs
  elim peeked [
    | none ↦ find_next smallest places bufs found
    | some e ↦ find_next smallest places bufs (if replaces smallest found e then some e else found)
  ]

-- the fronts with this key are popped
unfoldable pub pop_same :
    Text → List ℕ → List SegmentReadBuf → Outcome IoError (List SegmentReadBuf)
unfolding peek_at pop_at
pop_same key [] bufs = ok bufs
pop_same key (p ∷ places) bufs = do
  peeked ← peek_at p bufs
  elim peeked [
    | none ↦ pop_same key places bufs
    | some e ↦ elim (text_eq key e.key) [
      | true ↦ do (popped, bufs') ← pop_at p bufs; pop_same key places bufs'
      | false ↦ pop_same key places bufs
    ]
  ]

-- A result, or `none` where the fuel runs out.
abbrev pub Fueled : Type 0 → Type 0
Fueled A = Option (Outcome IoError A)

abbrev pub and_then : {A B : Type 0} → Outcome IoError A → (A → Fueled B) → Fueled B
and_then (ok a) f = f a
and_then (err e) f = some (err e)
and_then panic f = some panic

abbrev pub and_also : {A B : Type 0} → Fueled A → (A → Fueled B) → Fueled B
and_also none f = none
and_also (some r) f = and_then r f

-- one of two results, of which the other is not computed
abbrev branch : {A : Type 0} → Bool → (Unit {0} → A) → (Unit {0} → A) → A
branch true f g = f tt
branch false f g = g tt

-- The inner `loop`. An entry that does not stand before the next key is found again, for ever.
unfoldable pub run_several : ℕ → List ℕ → Option Text → Text → Merging → Fueled Merging
unfolding find_next pop_same
run_several zero places next_key smallest m = none
run_several (suc fuel) places next_key smallest m =
    and_then (find_next smallest places m.bufs none) λ found. elim found [
      | none ↦ some (ok m)
      | some e ↦
          branch (stands_before next_key smallest e.key)
            (λ _. and_then (pop_same e.key places m.bufs) λ bufs.
              run_several fuel places next_key smallest
                (record m { bufs = bufs; res = m.res ++ e ∷ [] }))
            (λ _. run_several fuel places next_key smallest m)
    ]

-- what is put out for the buffers that have the key
unfoldable pub put_out : ℕ → List ℕ → Option Text → Text → Merging → Fueled Merging
unfolding run_single front_at pop_newest run_several
put_out fuel [] next_key smallest m = some panic
put_out fuel (p ∷ []) next_key smallest m =
    and_then (unwrap (get_elem? m.bufs p))
      λ b. some (run_single (length b.buf) p next_key smallest m)
put_out fuel (p ∷ (q ∷ places)) next_key smallest m = and_then (front_at p m.bufs) λ e.
    and_then (pop_newest (p ∷ (q ∷ places)) e m.bufs) λ (newest, bufs).
      run_several fuel (p ∷ (q ∷ places)) next_key smallest
        (record m { bufs = bufs; res = m.res ++ newest ∷ [] })

-- the buffers at hand behind that: the only one is popped, and does not go back
abbrev pub still_held : List ℕ → List ℕ
still_held [] = []
still_held (p ∷ []) = []
still_held (p ∷ (q ∷ places)) = p ∷ (q ∷ places)

-- the buffers go back into the map, unless they are at their end
unfoldable pub put_back : Text → List ℕ → List ℕ → List SegmentReadBuf → Live → Outcome IoError Live
unfolding peek_at without
put_back smallest [] is bufs live = ok live
put_back smallest (p ∷ places) [] bufs live = panic
put_back smallest (p ∷ places) (i ∷ is) bufs live = do
  peeked ← peek_at p bufs
  elim peeked [
    | none ↦ put_back smallest places is bufs live
    | some e ↦
        put_back smallest places is bufs
          (if text_le e.key smallest then without i live ++ (i, p) ∷ [] else live)
  ]

-- the numbers of the buffers with the key behind the current one
unfoldable pub find_indices :
    Text → Text → List SegmentReadBuf → Live → Option Text → List ℕ → Outcome IoError (List ℕ)
unfolding front_at
find_indices curr_key smallest bufs [] next_key next = ok next
find_indices curr_key smallest bufs ((i, p) ∷ live) next_key next = do
  e ← front_at p bufs
  let behind = text_lt curr_key e.key
  let push =
      behind && (elim next_key [ none ↦ text_le e.key smallest | some key ↦ text_le e.key key ])
  let replace =
      behind && (elim next_key [ none ↦ text_le e.key smallest | some key ↦ text_lt e.key key ])
  let cleared : List ℕ = if replace then [] else next
  find_indices curr_key smallest bufs live (if replace then some e.key else next_key)
      (if push then cleared ++ i ∷ [] else cleared)

unfoldable pub next_indices : Text → Merging → List ℕ → Outcome IoError Indices
unfolding find_indices first_key
next_indices smallest m curr = do
  found ← first_key curr m.live m.bufs
  elim found [
    | none ↦ ok (record { curr = curr; next = [] })
    | some curr_key ↦ do
      next ← find_indices curr_key smallest m.bufs m.live none []
      ok (record { curr = curr; next = next })
  ]

-- the key at the front of the first of the next buffers
unfoldable pub next_key_of : List ℕ → Live → List SegmentReadBuf → Outcome IoError (Option Text)
unfolding place_of peek_at
next_key_of [] live bufs = ok none
next_key_of (i ∷ is) live bufs = do
  p ← unwrap (place_of i live)
  peeked ← peek_at p bufs
  elim peeked [ none ↦ ok none | some e ↦ ok (some e.key) ]

-- the body of the loop
unfoldable pub merge_round : ℕ → Text → Merging → Indices → Fueled (Merging × Indices)
unfolding take_out put_out put_back next_indices next_key_of
merge_round fuel smallest m x =
    let (places, left) = take_out x.curr m.live in
    and_then (next_key_of x.next left m.bufs) λ next_key.
      and_also (put_out fuel places next_key smallest (record m { live = left })) λ m1.
        and_then (put_back smallest (still_held places) x.curr m1.bufs m1.live) λ live.
          let m2 : Merging = record m1 { live = live } in
          and_then (next_indices smallest m2 x.next) λ x'. some (ok (m2, x'))

-- the loop, while a buffer is in the map
unfoldable pub merge_rounds : ℕ → Text → Merging → Indices → Fueled Merging
unfolding merge_round
merge_rounds zero smallest m x = none
merge_rounds (suc fuel) smallest m x = elim m.live [
  | [] ↦ some (ok m)
  | _ ∷ _ ↦ and_also (merge_round fuel smallest m x) λ (m', x'). merge_rounds fuel smallest m' x'
]

-- the numbers 0, 1, ... of the buffers
unfoldable pub numbered : ℕ → List SegmentReadBuf → Live
numbered n [] = []
numbered n (b ∷ bufs) = (n, n) ∷ numbered (suc n) bufs

-- what follows where there is more than one buffer
unfoldable pub merge_all : ℕ → List SegmentReadBuf → Fueled Merging
unfolding scan retain still_in merge_rounds numbered
merge_all fuel bufs =
    let live = numbered 0 bufs in
    and_then (scan live bufs live [] (record { curr = []; next = [] })) λ (smallest, x).
      and_then (retain smallest bufs live) λ kept.
        merge_rounds fuel smallest (record { bufs = bufs; live = kept; res = [] })
          (record x { next = still_in kept x.next })

-- all entries of the only buffer
unfoldable pub drain : ℕ → Merging → Outcome IoError Merging
unfolding peek_at pop_at
drain zero m = ok m
drain (suc fuel) m = do
  (e, bufs) ← pop_at 0 m.bufs
  drain fuel (record m { bufs = bufs; res = m.res ++ e ∷ [] })

-- merge_sort: the entries that are put out, and the buffers behind it
unfoldable pub merge_sort : ℕ → List SegmentReadBuf → Fueled Merging
unfolding drain merge_all
merge_sort fuel [] = some (ok (record { bufs = []; live = []; res = [] }))
merge_sort fuel (b ∷ []) =
    some (drain (length b.buf) (record { bufs = b ∷ []; live = (0, 0) ∷ []; res = [] }))
merge_sort fuel (b ∷ (c ∷ bufs)) = merge_all fuel (b ∷ (c ∷ bufs))
