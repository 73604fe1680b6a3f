-- ===== src/Memtable/LogCases.antt =====
-- The three ways in which `Wal::append` writes an entry to a log that holds entries.
use mathlib.Core.Path.{subst}
use rkvs.Base.{
  ℕ, suc, ◌+◌, ◌-◌, ◌*◌, ◌^◌, ◌<◌, ◌≤◌, ◌≡◌, refl, sym, ap, ◌∙◌, arith, lengths, List, [], ◌∷◌,
  ◌++◌, append_assoc, append-nil, Option, none, some, length, length-append_bytes, All, All-append,
  IoError, zeroed, length-zeroed, Bool-cases, inl, inr, leb, leb→le, slice, slice_mid, ok,
}
use rkvs.Base.Io.{◌>>◌, Safe, Safe->>=, Safe_map}
use rkvs.Wal.Entry.{WalEntry, header_size}
use rkvs.Wal.EntryLaws.{IsLoggable, layout}
use rkvs.Wal.ParseLaws.{log_of, header, rest_of, header-rest_of}
use rkvs.Wal.Segment
use rkvs.Wal.Segment.{FileSystem, State}
use rkvs.Wal.DiskLaws.{DiskLaws, Written, Rotated, append-Written, pad-Written, rotate-Rotated}
use rkvs.Wal.Append.{rotate, append_whole, append_split, append_next, append_by_space}
use rkvs.Memtable.RecoverLaws.{Chunk, CutFits, continued}
use rkvs.Memtable.Chunks.{
  Follows, entries_of, ended_by, ended_by-append, ended-ended_by, entries_of-append, log_of-append,
}
use rkvs.Memtable.LogStored.{Stored}
use rkvs.Memtable.LogLaws.{Open, filled, Open-Written, Open-Full, Full-Open}

regroup : (xs ys zs : List ℕ) → xs ++ ((ys ++ zs) ++ []) ≡ (xs ++ (ys ++ [])) ++ zs
regroup xs ys zs = simp (append_assoc, append-nil)

module _ (fs : FileSystem) (disk : DiskLaws fs) (checksum : List ℕ → ℕ) (size : ℕ)
    (size_pos : 0 < size) where
  -- The files of the log hold the entries, in this order, and the active segment is at its end.
  pub record IsLogged (es : List WalEntry) (s : State fs) : Type 0 where
    pub done : List Chunk
    pub carried : Option WalEntry
    pub whole : List WalEntry
    pub number : ℕ
    pub at_end : Open fs disk checksum size size_pos none done carried whole number s
    pub entries : entries_of none done ++ ended_by carried whole ≡ es

  -- the state in which an entry is appended
  module _ (k : ℕ) (divides : k * size ≡ 2 ^ 32) (size_u32 : size < 2 ^ 32) (done : List Chunk)
      (carried : Option WalEntry) (whole : List WalEntry) (e : WalEntry) (loggable : IsLoggable e)
      (fits : length (layout checksum e) ≤ size) where
    abbrev more : List WalEntry
    more = (entries_of none done ++ ended_by carried whole) ++ e ∷ []

    joined :
        (cut : Option WalEntry) (whole' : List WalEntry) (c : Chunk)
        → Follows none done carried
        → c.whole ≡ whole
        → ended_by cut whole' ≡ e ∷ []
        → entries_of none (done ++ c ∷ []) ++ ended_by cut whole' ≡ more
    joined cut whole' c h same ends =
        rw (entries_of-append none carried done c h, ended-ended_by carried c, same, ends) refl

    -- what follows when the segment is full: its bytes are filled up, and the tail of the entry
    -- begins a new one
    rotated :
        (cut : Option WalEntry) (next : ℕ) (tail : List ℕ) (whole' : List WalEntry) (number : ℕ)
        (s : State fs)
        → Open fs disk checksum size size_pos cut done carried whole number s
        → CutFits cut (zeroed (size - s.active_segment.file_size))
        → tail ≡ continued checksum cut ++ (log_of checksum whole' ++ [])
        → ended_by cut whole' ≡ e ∷ []
        → length tail ≤ size
        → number * size + size ≤ next
        → next < 2 ^ 64
        → Safe
            (λ _ s'. IsLogged more s')
            ((Segment.pad fs >> (rotate fs size next >> Segment.append fs tail)) s)
    rotated cut next tail whole' number s h short content ends room low bounded =
        let padding = zeroed (size - s.active_segment.file_size) in
        let c = filled fs disk checksum size size_pos cut whole s padding in
        let Filled : State fs → Type 0 =
          λ s1. Stored fs disk checksum size size_pos s1.disk (suc number) (done ++ c ∷ []) cut in
        Safe->>= (λ _ s1. Filled s1) (λ _ s'. IsLogged more s') (Segment.pad fs)
          (λ _. rotate fs size next >> Segment.append fs tail) s
          (Safe_map
            (λ _ s1.
              Written fs disk (zeroed (s.active_segment.max_size - s.active_segment.file_size)) s
                s1)
            (λ _ s1. Filled s1) (Segment.pad fs s)
            (λ _ s1 w.
              Open-Full fs disk checksum size size_pos cut done carried whole padding number s s1 h
                (subst (λ n. Written fs disk (zeroed (n - s.active_segment.file_size)) s s1)
                  h.max_eq w)
                short (omega (arith, length-zeroed (size - s.active_segment.file_size), h.fits)))
            (pad-Written fs disk s (omega (arith, h.fits, h.max_eq))
              (omega (arith, h.max_eq, size_u32))))
          (λ _ s1 f.
            Safe->>= (λ _ s2. Rotated fs disk size next s1 s2) (λ _ s'. IsLogged more s')
              (rotate fs size next) (λ _. Segment.append fs tail) s1
              (rotate-Rotated fs disk size k next s1 size_pos divides bounded)
              (λ _ s2 r.
                Safe_map (λ _ s3. Written fs disk tail s2 s3) (λ _ s3. IsLogged more s3)
                  (Segment.append fs tail s2)
                  (λ _ s3 w. record {
                    done = done ++ c ∷ [];
                    carried = cut;
                    whole = whole';
                    number = r.number;
                    at_end =
                        Full-Open fs disk checksum size size_pos (done ++ c ∷ []) cut whole' number
                          next tail s1 s2 s3 f r w low content
                          (subst (λ es. All IsLoggable es) (sym ends) (loggable, tt)) room;
                    entries = joined cut whole' c h.stored.follows refl ends;
                  })
                  (append-Written fs disk tail s2 (omega (arith, r.size_eq, r.max_eq, room))
                    (omega (arith, room, size_u32)))))

    module _ (number : ℕ) (s : State fs)
        (h : Open fs disk checksum size size_pos none done carried whole number s)
        (bounded : number * size + s.active_segment.file_size + length (layout checksum e)
          < 2 ^ 64) where
      abbrev low : ℕ
      low = number * size + s.active_segment.file_size + length (layout checksum e)

      log_end : log_of checksum (e ∷ []) ≡ layout checksum e
      log_end = append-nil (layout checksum e)

      whole_case :
          length (layout checksum e) ≤ size - s.active_segment.file_size
          → Safe (λ _ s'. IsLogged more s') (append_whole fs size (layout checksum e) s)
      unfolding append_whole
      whole_case room =
          Safe_map (λ _ s'. Written fs disk (layout checksum e) s s') (λ _ s'. IsLogged more s')
            (Segment.append fs (layout checksum e) s)
            (λ _ s' w. record {
              done = done;
              carried = carried;
              whole = whole ++ e ∷ [];
              number = number;
              at_end =
                  Open-Written fs disk checksum size size_pos none none done carried whole
                    (whole ++ e ∷ []) (layout checksum e) number s s' h w
                    (rw (log_of-append checksum whole (e ∷ []), log_end)
                      (regroup (continued checksum carried) (log_of checksum whole)
                        (layout checksum e)))
                    (subst (λ es. All IsLoggable es) (sym (ended_by-append carried whole (e ∷ [])))
                      (All-append IsLoggable (ended_by carried whole) (e ∷ []) h.loggable
                        (loggable, tt)))
                    (omega (arith, room, h.fits));
              entries = rw (ended_by-append carried whole (e ∷ [])) (simp append_assoc);
            })
            (append-Written fs disk (layout checksum e) s (omega (arith, room, h.fits, h.max_eq))
              (omega (arith, fits, size_u32)))

      next_case :
          size - s.active_segment.file_size < header_size
          → size - s.active_segment.file_size < length (layout checksum e)
          → Safe (λ _ s'. IsLogged more s') (append_next fs size low (layout checksum e) s)
      unfolding append_next
      next_case short over =
          rotated none low (layout checksum e) (e ∷ []) number s h
            (omega (arith, short, length-zeroed (size - s.active_segment.file_size)))
            (sym (log_end ∙ refl) ∙ sym (append-nil (log_of checksum (e ∷ [])))) refl fits
            (omega (arith, over, h.fits)) bounded

      length-header : length (header checksum e) ≡ header_size
      length-header = omega lengths

      length-rest : header_size + length (rest_of e) ≡ length (layout checksum e)
      length-rest = omega (
        lengths,
        ap (λ l. length l) (header-rest_of checksum e),
        length-append_bytes (header checksum e) (rest_of e),
        length-header,
      )

      head_part : slice {E = IoError} (layout checksum e) 0 header_size ≡ ok (header checksum e)
      head_part =
          slice_mid (layout checksum e) [] (header checksum e) (rest_of e) 0 header_size
            (sym (header-rest_of checksum e)) refl (omega (arith, length-header))

      rest_part :
          slice {E = IoError} (layout checksum e) header_size (length (layout checksum e))
          ≡ ok (rest_of e)
      rest_part =
          slice_mid (layout checksum e) (header checksum e) (rest_of e) [] header_size
            (length (layout checksum e))
            (sym (header-rest_of checksum e)
              ∙ ap (λ ys. header checksum e ++ ys) (sym (append-nil (rest_of e))))
            (sym length-header) (sym length-rest)

      split_case :
          header_size ≤ size - s.active_segment.file_size
          → size - s.active_segment.file_size < length (layout checksum e)
          → Safe (λ _ s'. IsLogged more s') (append_split fs size low (layout checksum e) s)
      unfolding append_split
      split_case wide over =
          let head = header checksum e in
          let tail = rest_of e in
          rw (head_part, rest_part)
            (Safe->>= (λ _ s1. Written fs disk head s s1) (λ _ s'. IsLogged more s')
              (Segment.append fs head)
              (λ _. Segment.pad fs >> (rotate fs size low >> Segment.append fs tail)) s
              (append-Written fs disk head s (omega (arith, length-header, h.max_eq, wide, h.fits))
                (omega (arith, length-header)))
              (λ _ s1 w.
                let h1 : Open fs disk checksum size size_pos (some e) done carried whole number s1 =
                  Open-Written fs disk checksum size size_pos none (some e) done carried whole whole
                    head number s s1 h w (simp (append_assoc, append-nil)) h.loggable
                    (omega (arith, length-header, wide, h.fits)) in
                let grown : s1.active_segment.file_size ≡ s.active_segment.file_size + length head =
                  ap (λ g. g.file_size) w.active_eq in
                let n = size - s1.active_segment.file_size in
                rotated (some e) low tail [] number s1 h1
                  (
                    loggable,
                    omega (arith, length-zeroed n, grown, length-header, length-rest, over, wide),
                  )
                  (sym (append-nil tail)) refl (omega (arith, length-rest, fits))
                  (omega (arith, over, h.fits)) bounded))

      pub by_space :
          (m : ℕ)
          → m ≡ size - s.active_segment.file_size
          → Safe
              (λ _ s'. IsLogged more s')
              (append_by_space fs size low (layout checksum e) (length (layout checksum e)) m s)
      unfolding append_by_space
      by_space m hm = elim (Bool-cases (leb (length (layout checksum e)) m)) [
        | inl room ↦
            rw (room) (whole_case (omega (arith, hm, leb→le (length (layout checksum e)) m room)))
        | inr full ↦
            let over : m < length (layout checksum e) = ground arith in
            elim (Bool-cases (leb header_size m)) [
              | inl wide ↦
                  rw (full, wide)
                    (split_case (omega (arith, hm, leb→le header_size m wide))
                      (omega (arith, hm, over)))
              | inr short ↦
                  let narrow : m < header_size = ground arith in
                  rw (full, short) (next_case (omega (arith, hm, narrow)) (omega (arith, hm, over)))
            ]
      ]
