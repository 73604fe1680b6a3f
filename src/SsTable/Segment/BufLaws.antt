-- ===== src/SsTable/Segment/BufLaws.antt =====
-- `SegmentReadBuf` reads the entries of its segment in their order: what is popped, what is in the
-- buffer and what is ahead are all entries.
use mathlib.Core.Path.{subst}
use rkvs.Base.{
  ℕ, ◌+◌, ◌-◌, ◌<◌, ◌≤◌, ◌≡◌, refl, sym, ap, ◌∙◌, arith, lengths, List, [], ◌∷◌, ◌++◌, append_assoc,
  append-nil, Bool-cases, inl, inr, some, length, leb, leb→le, le→leb, Outcome, ok, err, panic,
  ◌>>=◌, IoError, length-append_bytes,
}
use rkvs.SsTable.Entry.{SsTableEntry}
use rkvs.SsTable.EntryLaws.{length-layout, block}
use rkvs.SsTable.Segment.Divided.{block-append}
use rkvs.SsTable.Segment.File.{MayRead, ReadFailed}
use rkvs.SsTable.Segment.Stores.{Stores}
use rkvs.SsTable.Segment.ReadBuf.{
  smaller, read_at_most, SegmentReadBuf, stored_len, push_all, fill, pop_front,
}
use rkvs.SsTable.Segment.Fitting.{fitting}
use rkvs.SsTable.Segment.MostLaws.{ReadsEntries, read_at_most-fitting, smaller_le_right}

length-block_stored :
    (e : SsTableEntry) (es : List SsTableEntry)
    → length (block (e ∷ es)) ≡ stored_len e + length (block es)
length-block_stored e es = omega (lengths, length-layout e)

abbrev placed : SegmentReadBuf → List SsTableEntry → ℕ → ℕ → SegmentReadBuf
placed b buf offset size = record b { buf = buf; curr_offset = offset; size = size }

placed_eq :
    (b : SegmentReadBuf) (l m : List SsTableEntry) (o p i j : ℕ)
    → l ≡ m
    → o ≡ p
    → i ≡ j
    → placed b l o i ≡ placed b m p j
placed_eq b l m o p i j e f g =
    ap (λ x. placed b x o i) e ∙ (ap (λ x. placed b m x i) f ∙ ap (λ x. placed b m p x) g)

push_all-append :
    (xs : List SsTableEntry) (b : SegmentReadBuf)
    → push_all xs b ≡ record b {
      buf = b.buf ++ xs;
      curr_offset = b.curr_offset + length (block xs);
      size = b.size + length (block xs);
    }
unfolding push_all
push_all-append [] b =
    placed_eq b b.buf (b.buf ++ []) b.curr_offset (b.curr_offset + 0) b.size (b.size + 0)
      (sym (append-nil b.buf)) (omega arith) (omega arith)
push_all-append (x ∷ xs) b =
    push_all-append xs
      (placed b (b.buf ++ x ∷ []) (b.curr_offset + stored_len x) (b.size + stored_len x))
    ∙ placed_eq b ((b.buf ++ x ∷ []) ++ xs) (b.buf ++ x ∷ xs)
        (b.curr_offset + stored_len x + length (block xs)) (b.curr_offset + length (block (x ∷ xs)))
        (b.size + stored_len x + length (block xs)) (b.size + length (block (x ∷ xs)))
        (append_assoc b.buf (x ∷ []) xs) (omega (arith, length-block_stored x xs))
        (omega (arith, length-block_stored x xs))

fitting_prefix :
    (n : ℕ) (es : List SsTableEntry)
    → (left : List SsTableEntry) × (es ≡ fitting n es ++ left) × (length (block (fitting n es)) ≤ n)
fitting_prefix n [] = ([], refl, omega arith)
fitting_prefix n (e ∷ es) = elim (Bool-cases (leb (stored_len e) n)) [
  | inl fits ↦
      let (left, eq, size) = fitting_prefix (n - stored_len e) es in
      rw fits (
        left,
        ap (λ l. e ∷ l) eq,
        omega (
          arith,
          size,
          length-block_stored e (fitting (n - stored_len e) es),
          leb→le (stored_len e) n fits,
        ),
      )
  | inr cut ↦ rw cut (e ∷ es, refl, omega arith)
]

-- The buffer reads a segment: what was popped, what it holds and what is ahead are the entries of
-- the segment; its offset and its size are those of what it holds, and it has room for it.
pub record IsReading (es popped : List SsTableEntry) (b : SegmentReadBuf) : Type 0 where
  pub stores : Stores b.segment es
  pub reads : MayRead stores.open_file stores.contents
  pub footer : 0 < length stores.rest
  pub ahead : List SsTableEntry
  pub split : es ≡ popped ++ (b.buf ++ ahead)
  pub offset_eq : b.curr_offset ≡ length (block (popped ++ b.buf))
  pub size_eq : b.size ≡ length (block b.buf)
  pub room : b.size ≤ b.max_size

-- What a `fill` comes to: the next entries that lie whole within the room are behind the others,
-- and the same segment is still read; or the error of a read.
abbrev pub Filled :
    (es popped : List SsTableEntry) (b : SegmentReadBuf)
    → IsReading es popped b
    → Outcome IoError SegmentReadBuf
    → Type 0
Filled es popped b reading (ok b') =
    (b'.buf
      ≡ b.buf
        ++ fitting (smaller (length (block reading.ahead) + 1) (b.max_size - b.size)) reading.ahead)
    × IsReading es popped b'
Filled es popped b reading (err e) = ReadFailed reading.stores.open_file e
Filled es popped b reading panic = ⊥

filled :
    (es popped : List SsTableEntry) (b : SegmentReadBuf) (r : IsReading es popped b)
    → Filled es popped b r (
        let new = fitting (smaller (length (block r.ahead) + 1) (b.max_size - b.size)) r.ahead in
        ok (
          placed b
            (b.buf ++ new)
            (b.curr_offset + length (block new))
            (b.size + length (block new))))
filled es popped b r =
    let n = smaller (length (block r.ahead) + 1) (b.max_size - b.size) in
    let new : List SsTableEntry = fitting n r.ahead in
    let (left, ahead_eq, within) = fitting_prefix n r.ahead in
    let b' =
      placed b (b.buf ++ new) (b.curr_offset + length (block new)) (b.size + length (block new)) in
    let upper = smaller_le_right (length (block r.ahead) + 1) (b.max_size - b.size) in
    (
      refl,
      record {
        stores = r.stores;
        reads = r.reads;
        footer = r.footer;
        ahead = left;
        split =
            r.split
            ∙ (ap (λ l. popped ++ (b.buf ++ l)) ahead_eq
                ∙ ap (λ l. popped ++ l) (sym (append_assoc b.buf new left)));
        offset_eq = omega (
          arith,
          r.offset_eq,
          ap (λ l. length (block l)) (append_assoc popped b.buf new),
          ap (λ l. length l) (block-append (popped ++ b.buf) new),
          length-append_bytes (block (popped ++ b.buf)) (block new),
        );
        size_eq = omega (
          arith,
          r.size_eq,
          ap (λ l. length l) (block-append b.buf new),
          length-append_bytes (block b.buf) (block new),
        );
        room = omega (arith, r.room, within, upper);
      },
    )

-- Where read_at may return fewer bytes than asked for, or an error, `fill` fails only with the
-- error of a read, and does not panic: otherwise it puts behind the buffer the next entries of the
-- segment that lie whole within the room that is left, and still reads the same segment.
pub fill-IsReading :
    (es popped : List SsTableEntry) (b : SegmentReadBuf) (reading : IsReading es popped b)
    → Filled es popped b reading (fill b)
unfolding fill
fill-IsReading es popped b r = rw (le→leb b.size b.max_size r.room) (
    by_entries (read_at_most b.segment b.curr_offset (b.max_size - b.size)) (
      read_at_most-fitting b.segment es r.stores (popped ++ b.buf) r.ahead b.curr_offset
        (b.max_size - b.size) r.reads (r.split ∙ sym (append_assoc popped b.buf r.ahead))
        r.offset_eq r.footer))
  where
    by_entries :
        (m : Outcome IoError (List SsTableEntry))
        → ReadsEntries r.stores.open_file
            (fitting (smaller (length (block r.ahead) + 1) (b.max_size - b.size)) r.ahead)
            m
        → Filled es popped b r (m >>= λ new_entries. ok (push_all new_entries b))
    by_entries (err x) h = h
    by_entries panic h = h
    by_entries (ok new) h =
        subst (λ v. Filled es popped b r (ok v))
          (sym (ap (λ l. push_all l b) h ∙ push_all-append _ b)) (filled es popped b r)

-- `pop_front` does not fail: it takes the first entry of the buffer, if there is one, and the
-- buffer still reads the segment behind it.
pub pop_front-IsReading :
    (es popped : List SsTableEntry) (b : SegmentReadBuf) (e : SsTableEntry)
    (more : List SsTableEntry)
    → IsReading es popped b
    → b.buf ≡ e ∷ more
    → (b' : SegmentReadBuf) × (pop_front {E = IoError} b ≡ ok (some e, b'))
      × (b'.buf ≡ more)
      × IsReading es (popped ++ e ∷ []) b'
unfolding pop_front
pop_front-IsReading es popped b e more r h =
    let held : b.size ≡ stored_len e + length (block more) =
      omega (arith, r.size_eq, ap (λ l. length (block l)) h, length-block_stored e more) in
    let same : b ≡ record b { buf = e ∷ more } = ap (λ l. record b { buf = l }) h in
    let entries : popped ++ b.buf ≡ (popped ++ e ∷ []) ++ more =
      ap (λ l. popped ++ l) h ∙ sym (append_assoc popped (e ∷ []) more) in
    (
      record b { buf = more; size = b.size - stored_len e },
      ap (λ x. pop_front {E = IoError} x) same
          ∙ rw (le→leb (stored_len e) b.size (omega arith)) refl,
      refl,
      record {
        stores = r.stores;
        reads = r.reads;
        footer = r.footer;
        ahead = r.ahead;
        split =
            r.split
            ∙ (ap (λ l. popped ++ (l ++ r.ahead)) h
                ∙ sym (append_assoc popped (e ∷ []) (more ++ r.ahead)));
        offset_eq = r.offset_eq ∙ ap (λ l. length (block l)) entries;
        size_eq = omega (arith, held);
        room = omega (arith, r.room);
      },
    )
