-- ===== src/Wal/SegmentLaws.antt =====
-- What one call on the active segment, and a rotation, make of the place in the log.
use rkvs.Base.{
  ℕ, ◌+◌, ◌-◌, ◌*◌, ◌%◌, ◌^◌, ◌<◌, ◌≤◌, ◌≡◌, refl, ap, arith, List, Option, none, some, length, ok,
  IoError, zeroed, length-zeroed, le→leb, Text,
}
use mathlib.Core.Path.{subst}
use rkvs.Base.Io.{◌>>=◌, modify, Safe, Safe->>=}
use rkvs.Wal.Filename.{base_lsn}
use rkvs.Wal.FilenameLaws.{base_lsn-multiple}
use rkvs.Wal.Segment
use rkvs.Wal.Segment.{FileSystem, State, on_disk, next_lsn}
use rkvs.Wal.Append.{rotate}

-- A file that was created is empty.
pub record FileSystemLaws (fs : FileSystem) : Type 0 where
  pub created : (path : Text) (d : fs.Disk) → fs.file_len path (fs.create path d).1 ≡ 0

module _ (fs : FileSystem) (size : ℕ) where
  -- The active segment starts at a multiple of the segment size and is not overfull.
  pub record IsPlaced (s : State fs) : Type 0 where
    pub number : ℕ
    pub starts : s.active_segment.base_lsn ≡ number * size
    pub max_size : s.active_segment.max_size ≡ size
    pub fits : s.active_segment.file_size ≤ size

  -- after a call: the segment is `IsPlaced` and has `n` bytes, from `base`
  pub record At (base n : ℕ) (s : State fs) : Type 0 where
    pub base_eq : s.active_segment.base_lsn ≡ base
    pub size_eq : s.active_segment.file_size ≡ n
    pub max_eq : s.active_segment.max_size ≡ size

  -- an empty segment that starts at the multiple of the size at or below `next`
  pub record Started (next : ℕ) (s : State fs) : Type 0 where
    pub number : ℕ
    pub at : At (number * size) 0 s
    pub low : number * size ≤ next
    pub high : next < number * size + size

module _ (fs : FileSystem) (laws : FileSystemLaws fs) (size : ℕ) (size_pos : 0 < size)
    (size_u32 : size < 2 ^ 32) where
  on_disk_safe :
      (base n : ℕ) (call : fs.Disk → Option IoError × fs.Disk) (s : State fs)
      → At fs size base n s
      → Safe (λ _ s'. At fs size base n s') (on_disk fs call s)
  on_disk_safe base n call s h =
      elim (call s.disk).0
        as (λ r.
          Safe (λ _ s'. At fs size base n s')
            (
              Segment.result r,
              record { disk = (call s.disk).1; active_segment = s.active_segment },
            )) [
              | none ↦ record { base_eq = h.base_eq; size_eq = h.size_eq; max_eq = h.max_eq }
              | some e ↦ tt
            ]

  pub append_safe :
      (base n : ℕ) (buf : List ℕ) (s : State fs)
      → n + length buf ≤ size
      → At fs size base n s
      → Safe (λ _ s'. At fs size base (n + length buf) s') (Segment.append fs buf s)
  unfolding Segment.append
  append_safe base n buf s hn h =
      let small : length buf % 2 ^ 32 ≡ length buf = omega arith in
      let room : s.active_segment.file_size + length buf ≤ s.active_segment.max_size =
        omega (arith, h.size_eq, h.max_eq, hn) in
      rw (small, le→leb (s.active_segment.file_size + length buf) s.active_segment.max_size room)
        (Safe->>= (λ _ s'. At fs size base n s') (λ _ s'. At fs size base (n + length buf) s')
          (on_disk fs (fs.write_all s.active_segment.file_path buf))
          (λ _. modify (Segment.grown fs (length buf))) s
          (on_disk_safe base n (fs.write_all s.active_segment.file_path buf) s h)
          (λ _ s' h'. record {
            base_eq = h'.base_eq;
            size_eq = ap (λ m. m + length buf) h'.size_eq;
            max_eq = h'.max_eq;
          }))

  new_safe :
      (base : ℕ) (path : Text) (s : State fs)
      → base_lsn {E = IoError} path size ≡ ok base
      → fs.file_len path s.disk ≡ 0
      → Safe
          (λ g _. (g.base_lsn ≡ base) × (g.file_size ≡ 0) × (g.max_size ≡ size))
          (Segment.new fs path size s)
  unfolding Segment.new
  new_safe base path s hb hl = rw (hb, hl) (refl, refl, refl)

  pub free_safe :
      (base n : ℕ) (s : State fs)
      → n ≤ size
      → At fs size base n s
      → Safe (λ m s'. (m ≡ size - n) × At fs size base n s') (Segment.remaining_space fs s)
  unfolding Segment.remaining_space
  free_safe base n s hn h =
      rw
        (le→leb s.active_segment.file_size s.active_segment.max_size
          (omega (arith, h.size_eq, h.max_eq, hn)))
        (omega (arith, h.size_eq, h.max_eq), h)

  pub pad_safe :
      (base n : ℕ) (s : State fs)
      → n ≤ size
      → At fs size base n s
      → Safe (λ _ s'. At fs size base size s') (Segment.pad fs s)
  unfolding Segment.pad
  pad_safe base n s hn h =
      Safe->>= (λ m s'. (m ≡ size - n) × At fs size base n s') (λ _ s'. At fs size base size s')
        (Segment.remaining_space fs) (λ m. Segment.append fs (zeroed m)) s (free_safe base n s hn h)
        (λ m s' (hm, h').
          subst (λ t. Safe (λ _ s''. At fs size base t s'') (Segment.append fs (zeroed m) s'))
            (omega (arith, hm, length-zeroed m))
            (append_safe base n (zeroed m) s' (omega (arith, hm, length-zeroed m)) h'))

  created_safe :
      (path : Text) (s : State fs)
      → Safe (λ _ s'. fs.file_len path s'.disk ≡ 0) (on_disk fs (fs.create path) s)
  created_safe path s =
      elim (fs.create path s.disk).0
        as (λ r.
          Safe {S = State fs} (λ _ s'. fs.file_len path s'.disk ≡ 0)
            (
              Segment.result r,
              record { disk = (fs.create path s.disk).1; active_segment = s.active_segment },
            )) [ none ↦ laws.created path s.disk | some e ↦ tt ]

  -- a new segment is empty, and starts at the multiple of the size at or below the number
  pub rotate_safe :
      (k next : ℕ) (s : State fs)
      → k * size ≡ 2 ^ 32
      → next < 2 ^ 64
      → Safe (λ _ s'. Started fs size next s') (rotate fs size next s)
  unfolding rotate
  rotate_safe k next s hk h64 =
      let (name, number, named, starts, low, high) =
        base_lsn-multiple {E = IoError} next size k h64 size_pos hk in
      rw named (
        Safe->>= (λ _ s'. fs.file_len name s'.disk ≡ 0) (λ _ s'. Started fs size next s')
          (on_disk fs (fs.create name))
          (λ _. Segment.new fs name size >>= λ g.
            modify λ s'. record { disk = s'.disk; active_segment = g })
          s (created_safe name s)
          (λ _ s' empty.
            Safe->>= (λ g _. (g.base_lsn ≡ number * size) × (g.file_size ≡ 0) × (g.max_size ≡ size))
              (λ _ s''. Started fs size next s'') (Segment.new fs name size)
              (λ g. modify λ s''. record { disk = s''.disk; active_segment = g }) s'
              (new_safe (number * size) name s' starts empty)
              (λ g s'' (hb, hs, hm). record {
                number = number;
                at = record { base_eq = hb; size_eq = hs; max_eq = hm };
                low = low;
                high = high;
              })))
