-- ===== src/Memtable/WorkerLaws.antt =====
-- What the worker of the memtable keeps up: the table is what was written last, and the sequence
-- numbers ascend.
use rkvs.Base.{
  ℕ, ◌+◌, ◌*◌, ◌^◌, ◌<◌, ◌≤◌, ◌≡◌, refl, sym, ap, ◌∙◌, arith, lengths, List, false, Option, none,
  some, length, Outcome, ok, err, panic, Text, IoError, text_eq, Bool-cases, inl, inr, text_eq→eq,
}
use rkvs.Base.Io.{Io, ◌>>◌, pure, modify, Safe, Safe->>=}
use rkvs.Wal.Entry.{WalEntry, OpType}
use rkvs.Wal.EntryLaws.{OpFits, layout}
use rkvs.Wal.Segment.{FileSystem, State}
use rkvs.Wal.SegmentLaws.{FileSystemLaws, IsPlaced}
use rkvs.Wal.Append
use rkvs.Wal.Append.{next_sequence_number}
use rkvs.Wal.AppendLaws.{append-IsPlaced}
use rkvs.Memtable.Table.{MemTableValue, Table, lookup, insert, lookup-insert, lookup-insert_other}
use rkvs.Memtable.Worker.{Worker, write, put_key, delete_key, on_wal, inserted}

abbrev number_of : Option MemTableValue → ℕ
number_of none = 0
number_of (some v) = v.sequence_number

-- A call of the log changes nothing else of the worker.
pub on_wal_safe :
    (fs : FileSystem) (size : ℕ) (checksum : List ℕ → ℕ) {F : Type 0}
    (flush : Table → Io F IoError (Unit {0})) (max_size : ℕ)
    (call : Io (State fs) IoError (Unit {0})) (w : Worker fs size checksum flush max_size)
    (Q : State fs → Type 0) (R : Worker fs size checksum flush max_size → Type 0)
    → ((s : State fs) → Q s → R (record w { wal = s }))
    → Safe (λ _ s. Q s) (call w.wal)
    → Safe (λ _ w'. R w') (on_wal fs size checksum flush max_size call w)
on_wal_safe fs size checksum flush max_size call w Q R imp h =
    by_result (call w.wal).0 (call w.wal).1 h
  where
    by_result :
        (r : Outcome IoError (Unit {0})) (s : State fs)
        → Safe (λ _ s'. Q s') (r, s)
        → Safe (λ _ w'. R w') (r, record w { wal = s })
    by_result (ok a) s h = imp s h
    by_result (err e) s h = tt
    by_result panic s h = h

module _ (fs : FileSystem) (laws : FileSystemLaws fs) (size : ℕ) (size_pos : 0 < size)
    (size_u32 : size < 2 ^ 32) (k : ℕ) (divides : k * size ≡ 2 ^ 32) (checksum : List ℕ → ℕ)
    {F : Type 0} (flush : Table → Io F IoError (Unit {0})) (max_size : ℕ) where
  abbrev State_ : Type 0
  State_ = Worker fs size checksum flush max_size

  -- The log stands well, and every value of the table was written with a number below the next.
  pub record IsFresh (w : State_) : Type 0 where
    pub placed : IsPlaced fs size w.wal
    pub below :
        (key : Text) (v : MemTableValue)
        → lookup key w.table ≡ some v
        → v.sequence_number < next_sequence_number fs size w.wal

  -- The entry that a write makes.
  abbrev pub entry_of : OpType → Text → Option Text → State_ → WalEntry
  entry_of op key value w = record {
    operation_type = op;
    key = key;
    value = value;
    sequence_number = next_sequence_number fs size w.wal;
  }

  -- What a write has done to the table, when it returns the old value.
  pub record Wrote (key : Text) (value : Option Text) (w : State_) (old : Option MemTableValue)
      (w' : State_) : Type 0 where
    pub old_value : old ≡ lookup key w.table
    pub new_value :
        lookup key w'.table
        ≡ some (record { value = value; sequence_number = next_sequence_number fs size w.wal })
    pub others :
        (other : Text) → text_eq other key ≡ false → lookup other w'.table ≡ lookup other w.table
    pub fresh : IsFresh w'

  module _ (op : OpType) (key : Text) (value : Option Text) (w : State_) (fresh : IsFresh w)
      (hk : 0 < length key) (ho : OpFits op value)
      (fits : length (layout checksum (entry_of op key value w)) ≤ size)
      (bounded : next_sequence_number fs size w.wal
          + length (layout checksum (entry_of op key value w))
        < 2 ^ 64) where
    -- after the log is written, before the table is
    abbrev Logged : State_ → Type 0
    Logged w' =
        IsPlaced fs size w'.wal
        × (next_sequence_number fs size w.wal < next_sequence_number fs size w'.wal)
        × (w'.table ≡ w.table)

    logged :
        Safe
          (λ _ w'. Logged w')
          (on_wal fs size checksum flush max_size
            (Append.append fs size checksum (entry_of op key value w))
            w)
    logged =
        on_wal_safe fs size checksum flush max_size
          (Append.append fs size checksum (entry_of op key value w)) w
          (λ s'.
            IsPlaced fs size s'
            × (next_sequence_number fs size w.wal
                  + length (layout checksum (entry_of op key value w))
                ≤ next_sequence_number fs size s'))
          Logged (λ s' (p, l). (p, omega (lengths, l), refl))
          (append-IsPlaced fs laws size size_pos size_u32 checksum k (entry_of op key value w) w.wal
            fresh.placed divides hk ho refl fits bounded)

    abbrev written : MemTableValue
    written = record { value = value; sequence_number = next_sequence_number fs size w.wal }

    below_next :
        (t : Table) (n : ℕ)
        → t ≡ w.table
        → next_sequence_number fs size w.wal < n
        → (other : Text) (v : MemTableValue) → lookup other (insert key written t) ≡ some v
        → v.sequence_number < n
    below_next t n te lt other v h = elim (Bool-cases (text_eq other key)) [
      | inl same ↦
          let number : next_sequence_number fs size w.wal ≡ v.sequence_number = ap number_of (
            sym (lookup-insert key written t)
            ∙ (ap (λ x. lookup x (insert key written t)) (sym (text_eq→eq other key same)) ∙ h)) in
          omega (arith, number, lt)
      | inr differs ↦
          let kept : lookup other w.table ≡ some v =
            sym (ap (λ t'. lookup other t') te)
            ∙ (sym (lookup-insert_other key other written t differs) ∙ h) in
          omega (arith, fresh.below other v kept, lt)
    ]

    write_safe :
        Safe
          (λ old w'. Wrote key value w old w')
          (write fs size checksum flush max_size op key value w)
    unfolding write
    write_safe =
        Safe->>= (λ _ w'. Logged w') (λ old w'. Wrote key value w old w')
          (on_wal fs size checksum flush max_size
            (Append.append fs size checksum (entry_of op key value w)))
          (λ _.
            modify (inserted fs size checksum flush max_size key written)
            >> pure (ok (lookup key w.table)))
          w logged
          (λ _ w' (p, lt, te). record {
            old_value = refl;
            new_value = lookup-insert key written w'.table;
            others = λ other h.
                lookup-insert_other key other written w'.table h ∙ ap (λ t. lookup other t) te;
            fresh = record {
              placed = p;
              below = below_next w'.table (next_sequence_number fs size w'.wal) te lt;
            };
          })

  pub put_key-Wrote :
      (key value : Text) (w : State_)
      → IsFresh w
      → 0 < length key
      → length (layout checksum (entry_of OpType.put key (some value) w)) ≤ size
      → next_sequence_number fs size w.wal
          + length (layout checksum (entry_of OpType.put key (some value) w))
        < 2 ^ 64
      → Safe
          (λ old w'. Wrote key (some value) w old w')
          (put_key fs size checksum flush max_size key value w)
  unfolding put_key
  put_key-Wrote key value w fresh hk fits bounded =
      write_safe OpType.put key (some value) w fresh hk tt fits bounded

  pub delete_key-Wrote :
      (key : Text) (w : State_)
      → IsFresh w
      → 0 < length key
      → length (layout checksum (entry_of OpType.delete key none w)) ≤ size
      → next_sequence_number fs size w.wal
          + length (layout checksum (entry_of OpType.delete key none w))
        < 2 ^ 64
      → Safe (λ old w'. Wrote key none w old w') (delete_key fs size checksum flush max_size key w)
  unfolding delete_key
  delete_key-Wrote key w fresh hk fits bounded =
      write_safe OpType.delete key none w fresh hk tt fits bounded
