-- ===== src/Wal/DiskLaws.antt =====
-- What the calls of the log make of the files: the bytes of each, and of the active segment.
use rkvs.Base.{
  ℕ, ◌+◌, ◌-◌, ◌*◌, ◌%◌, ◌^◌, ◌<◌, ◌≤◌, ◌≡◌, ◌≢◌, refl, ap, ◌∙◌, arith, List, [], ◌++◌, Option,
  none, some, length, IoError, zeroed, length-zeroed, le→leb, Text,
}
use rkvs.Base.Io.{◌>>=◌, modify, Safe, Safe->>=}
use rkvs.Wal.NameLaws.{IsNamed, IsNamed-base_lsn, determine_segment_filename-IsNamed}
use rkvs.Wal.Segment
use rkvs.Wal.Segment.{FileSystem, State, on_disk, grow, grown}
use rkvs.Wal.Append.{rotate}

-- What a file holds: nothing when it is created, and what is written to it, in order; a call that
-- succeeds leaves the other files alone.
pub record DiskLaws (fs : FileSystem) : Type 0 where
  pub read : Text → fs.Disk → List ℕ
  pub file_len_lem : (path : Text) (d : fs.Disk) → fs.file_len path d ≡ length (read path d)
  pub create_lem :
      (path : Text) (d : fs.Disk)
      → (fs.create path d).0 ≡ none
      → read path (fs.create path d).1 ≡ []
  pub create_others :
      (path other : Text) (d : fs.Disk)
      → (fs.create path d).0 ≡ none
      → other ≢ path
      → read other (fs.create path d).1 ≡ read other d
  pub write_lem :
      (path : Text) (bytes : List ℕ) (d : fs.Disk)
      → (fs.write_all path bytes d).0 ≡ none
      → read path (fs.write_all path bytes d).1 ≡ read path d ++ bytes
  pub write_others :
      (path : Text) (bytes : List ℕ) (other : Text) (d : fs.Disk)
      → (fs.write_all path bytes d).0 ≡ none
      → other ≢ path
      → read other (fs.write_all path bytes d).1 ≡ read other d

module _ (fs : FileSystem) (disk : DiskLaws fs) where
  -- bytes stand behind those of the active segment, and nothing else has changed
  pub record Written (bytes : List ℕ) (s s' : State fs) : Type 0 where
    pub active_eq : s'.active_segment ≡ grow fs (length bytes) s.active_segment
    pub here :
        disk.read s.active_segment.file_path s'.disk
        ≡ disk.read s.active_segment.file_path s.disk ++ bytes
    pub others :
        (other : Text)
        → other ≢ s.active_segment.file_path
        → disk.read other s'.disk ≡ disk.read other s.disk

  -- a new active segment that starts at the multiple of the size at or below `next`
  pub record Rotated (size next : ℕ) (s s' : State fs) : Type 0 where
    pub number : ℕ
    pub named : IsNamed size number s'.active_segment.file_path
    pub starts : s'.active_segment.base_lsn ≡ number * size
    pub max_eq : s'.active_segment.max_size ≡ size
    pub size_eq : s'.active_segment.file_size ≡ 0
    pub low : number * size ≤ next
    pub high : next < number * size + size
    pub here : disk.read s'.active_segment.file_path s'.disk ≡ []
    pub others :
        (other : Text)
        → other ≢ s'.active_segment.file_path
        → disk.read other s'.disk ≡ disk.read other s.disk

  -- a call on the disk that succeeds, and what comes behind it
  Safe-on_disk :
      (call : fs.Disk → Option IoError × fs.Disk) (R : Unit {0} → State fs → Type 0) (s : State fs)
      → ((call s.disk).0 ≡ none
          → R tt (record { disk = (call s.disk).1; active_segment = s.active_segment }))
      → Safe R (on_disk fs call s)
  Safe-on_disk call R s h = by_result (call s.disk).0 refl
    where
      by_result :
          (r : Option IoError)
          → (call s.disk).0 ≡ r
          → Safe R (
            Segment.result r,
            record { disk = (call s.disk).1; active_segment = s.active_segment },
          )
      by_result none e = h e
      by_result (some e) k = tt

  pub append-Written :
      (bytes : List ℕ) (s : State fs)
      → s.active_segment.file_size + length bytes ≤ s.active_segment.max_size
      → length bytes < 2 ^ 32
      → Safe (λ _ s'. Written bytes s s') (Segment.append fs bytes s)
  unfolding Segment.append
  append-Written bytes s room small =
      let exact : length bytes % 2 ^ 32 ≡ length bytes = omega arith in
      rw (exact, le→leb (s.active_segment.file_size + length bytes) s.active_segment.max_size room)
        (Safe->>= (λ _ s'. Written bytes s (grown fs (length bytes) s'))
          (λ _ s'. Written bytes s s') (on_disk fs (fs.write_all s.active_segment.file_path bytes))
          (λ _. modify (grown fs (length bytes))) s
          (Safe-on_disk (fs.write_all s.active_segment.file_path bytes)
            (λ _ s'. Written bytes s (grown fs (length bytes) s')) s
            (λ e. record {
              active_eq = refl;
              here = disk.write_lem s.active_segment.file_path bytes s.disk e;
              others = λ other differs.
                  disk.write_others s.active_segment.file_path bytes other s.disk e differs;
            }))
          (λ _ s' w. w))

  pub pad-Written :
      (s : State fs)
      → s.active_segment.file_size ≤ s.active_segment.max_size
      → s.active_segment.max_size < 2 ^ 32
      → Safe
          (λ _ s'. Written (zeroed (s.active_segment.max_size - s.active_segment.file_size)) s s')
          (Segment.pad fs s)
  unfolding Segment.pad Segment.remaining_space
  pad-Written s fits small =
      let n = s.active_segment.max_size - s.active_segment.file_size in
      rw (le→leb s.active_segment.file_size s.active_segment.max_size fits) (
        append-Written (zeroed n) s (omega (arith, length-zeroed n))
          (omega (arith, length-zeroed n)))

  pub rotate-Rotated :
      (size k next : ℕ) (s : State fs)
      → 0 < size
      → k * size ≡ 2 ^ 32
      → next < 2 ^ 64
      → Safe (λ _ s'. Rotated size next s s') (rotate fs size next s)
  unfolding rotate Segment.new
  rotate-Rotated size k next s size_pos divides bounded =
      let (name, number, made, named, low, high) =
        determine_segment_filename-IsNamed {E = IoError} next size k bounded size_pos divides in
      rw made (
        Safe->>=
          (λ _ s'.
            (disk.read name s'.disk ≡ [])
            × ((other : Text) → other ≢ name → disk.read other s'.disk ≡ disk.read other s.disk))
          (λ _ s'. Rotated size next s s') (on_disk fs (fs.create name))
          (λ _. Segment.new fs name size >>= λ g.
            modify λ s'. record { disk = s'.disk; active_segment = g })
          s
          (Safe-on_disk (fs.create name)
            (λ _ s'.
              (disk.read name s'.disk ≡ [])
              × ((other : Text) → other ≢ name → disk.read other s'.disk ≡ disk.read other s.disk))
            s
            (λ e. (
              disk.create_lem name s.disk e,
              λ other differs. disk.create_others name other s.disk e differs,
            )))
          (λ _ s' (empty, others).
            let len : fs.file_len name s'.disk ≡ 0 =
              disk.file_len_lem name s'.disk ∙ ap (λ l. length l) empty in
            rw (IsNamed-base_lsn {E = IoError} size number name named, len)
              (record {
                number = number;
                named = named;
                starts = refl;
                max_eq = refl;
                size_eq = refl;
                low = low;
                high = high;
                here = empty;
                others = others;
              })))
