-- ===== src/Memtable/LogLaws.antt =====
-- What `Wal::append` leaves on the disk: segments that hold the entries one after the other, as the
-- recovery reads them.
use mathlib.Core.Path.{subst}
use native.Mathlib.Nat.{mul-le-mul_right, zero-add}
use rkvs.Base.{
  ℕ, suc, ◌+◌, ◌*◌, ◌<◌, ◌≤◌, ◌≡◌, sym, ap, ◌∙◌, arith, List, [], ◌∷◌, ◌++◌, append_assoc, Option,
  none, length, length-append_bytes, All, Bool-cases, inl, inr, leb, leb→le, false,
}
use rkvs.Wal.Entry.{WalEntry}
use rkvs.Wal.EntryLaws.{IsLoggable}
use rkvs.Wal.NameLaws.{IsNamed}
use rkvs.Wal.ParseLaws.{log_of}
use rkvs.Wal.Segment.{FileSystem, State}
use rkvs.Wal.DiskLaws.{DiskLaws, Written, Rotated}
use rkvs.Memtable.RecoverLaws.{Chunk, CutFits, continued, start_of}
use rkvs.Memtable.Chunks.{ended_by, ended-ended_by}
use rkvs.Memtable.LogStored.{Stored, Stored-others, Stored-append}

module _ (fs : FileSystem) (disk : DiskLaws fs) (checksum : List ℕ → ℕ) (size : ℕ)
    (size_pos : 0 < size) where
  -- The segments before the active one, and the active one: the rest of a carried entry, whole
  -- entries, and the header of one more or none.
  pub record Open (cut : Option WalEntry) (done : List Chunk) (carried : Option WalEntry)
      (whole : List WalEntry) (number : ℕ) (s : State fs) : Type 0 where
    pub stored : Stored fs disk checksum size size_pos s.disk number done carried
    pub loggable : All IsLoggable (ended_by carried whole)
    pub starts : s.active_segment.base_lsn ≡ number * size
    pub max_eq : s.active_segment.max_size ≡ size
    pub named : IsNamed size number s.active_segment.file_path
    pub here :
        disk.read s.active_segment.file_path s.disk
        ≡ continued checksum carried ++ (log_of checksum whole ++ start_of checksum cut)
    pub size_eq :
        s.active_segment.file_size
        ≡ length (continued checksum carried ++ (log_of checksum whole ++ start_of checksum cut))
    pub fits : s.active_segment.file_size ≤ size

  -- a write behind the bytes of the active segment
  pub Open-Written :
      (cut cut' : Option WalEntry) (done : List Chunk) (carried : Option WalEntry)
      (whole whole' : List WalEntry) (bytes : List ℕ) (number : ℕ) (s s' : State fs)
      → Open cut done carried whole number s
      → Written fs disk bytes s s'
      → continued checksum carried ++ (log_of checksum whole' ++ start_of checksum cut')
        ≡ (continued checksum carried ++ (log_of checksum whole ++ start_of checksum cut)) ++ bytes
      → All IsLoggable (ended_by carried whole')
      → s.active_segment.file_size + length bytes ≤ size
      → Open cut' done carried whole' number s'
  Open-Written cut cut' done carried whole whole' bytes number s s' h w content loggable room =
      record {
        stored =
            Stored-others fs disk checksum size size_pos s.disk s'.disk number number done carried
              s.active_segment.file_path h.stored h.named (omega arith) w.others;
        loggable = loggable;
        starts = ap (λ g. g.base_lsn) w.active_eq ∙ h.starts;
        max_eq = ap (λ g. g.max_size) w.active_eq ∙ h.max_eq;
        named = subst (IsNamed size number) (sym (ap (λ g. g.file_path) w.active_eq)) h.named;
        here =
            ap (λ g. disk.read g.file_path s'.disk) w.active_eq
            ∙ (w.here ∙ (ap (λ l. l ++ bytes) h.here ∙ sym content));
        size_eq =
            ap (λ g. g.file_size) w.active_eq
            ∙ (ap (λ n. n + length bytes) h.size_eq
                ∙ (sym (
                      length-append_bytes
                        (continued checksum carried
                          ++ (log_of checksum whole ++ start_of checksum cut))
                        bytes)
                    ∙ ap (λ l. length l) (sym content)));
        fits = omega (arith, ap (λ g. g.file_size) w.active_eq, room);
      }

  -- the active segment, filled up
  abbrev pub filled : Option WalEntry → List WalEntry → State fs → List ℕ → Chunk
  filled cut whole s padding = record {
    file_path = s.active_segment.file_path;
    whole = whole;
    cut = cut;
    padding = padding;
  }

  pub Open-Full :
      (cut : Option WalEntry) (done : List Chunk) (carried : Option WalEntry)
      (whole : List WalEntry) (padding : List ℕ) (number : ℕ) (s s' : State fs)
      → Open cut done carried whole number s
      → Written fs disk padding s s'
      → CutFits cut padding
      → s.active_segment.file_size + length padding ≡ size
      → Stored fs disk checksum size size_pos s'.disk
          (suc number)
          (done ++ filled cut whole s padding ∷ [])
          cut
  Open-Full cut done carried whole padding number s s' h w short full =
      let c = filled cut whole s padding in
      let path = s.active_segment.file_path in
      let bytes = continued checksum carried ++ (log_of checksum whole ++ start_of checksum cut) in
      let content : disk.read path s'.disk ≡ bytes ++ padding =
        w.here ∙ ap (λ l. l ++ padding) h.here in
      Stored-append fs disk checksum size size_pos s'.disk number done carried c
        (Stored-others fs disk checksum size size_pos s.disk s'.disk number number done carried path
          h.stored h.named (omega arith) w.others)
        (subst (λ es. All IsLoggable es) (sym (ended-ended_by carried c)) h.loggable) short h.named
        (content ∙ simp append_assoc)
        (ap (λ l. length l) content
          ∙ (length-append_bytes bytes padding
              ∙ (ap (λ n. n + length padding) (sym h.size_eq) ∙ full)))

  -- a new segment, and what is written first
  pub Full-Open :
      (done : List Chunk) (carried : Option WalEntry) (whole : List WalEntry) (number next : ℕ)
      (tail : List ℕ) (s s' s'' : State fs)
      (f : Stored fs disk checksum size size_pos s.disk (suc number) done carried)
      (r : Rotated fs disk size next s s')
      → Written fs disk tail s' s''
      → number * size + size ≤ next
      → tail ≡ continued checksum carried ++ (log_of checksum whole ++ [])
      → All IsLoggable (ended_by carried whole)
      → length tail ≤ size
      → Open none done carried whole r.number s''
  Full-Open done carried whole number next tail s s' s'' f r w low content loggable room =
      let later : suc number ≤ r.number = later_start number r.number next low r.high in
      let kept =
        Stored-others fs disk checksum size size_pos s.disk s'.disk (suc number) r.number done
          carried s'.active_segment.file_path f r.named later r.others in
      record {
        stored =
            Stored-others fs disk checksum size size_pos s'.disk s''.disk r.number r.number done
              carried s'.active_segment.file_path kept r.named (omega arith) w.others;
        loggable = loggable;
        starts = ap (λ g. g.base_lsn) w.active_eq ∙ r.starts;
        max_eq = ap (λ g. g.max_size) w.active_eq ∙ r.max_eq;
        named = subst (IsNamed size r.number) (sym (ap (λ g. g.file_path) w.active_eq)) r.named;
        here =
            ap (λ g. disk.read g.file_path s''.disk) w.active_eq
            ∙ (w.here ∙ (ap (λ l. l ++ tail) r.here ∙ content));
        size_eq =
            ap (λ g. g.file_size) w.active_eq
            ∙ (ap (λ n. n + length tail) r.size_eq
                ∙ (zero-add (length tail) ∙ ap (λ l. length l) content));
        fits = omega (arith, ap (λ g. g.file_size) w.active_eq, r.size_eq, room);
      }
    where
      not_below : (m n : ℕ) → leb (suc m) n ≡ false → n ≤ m
      not_below m n h = ground arith

      later_start : (m n next : ℕ) → m * size + size ≤ next → next < n * size + size → suc m ≤ n
      later_start m n next h k = elim (Bool-cases (leb (suc m) n)) [
        | inl le ↦ leb→le (suc m) n le
        | inr lt ↦ absurd (omega (arith, h, k, mul-le-mul_right size (not_below m n lt)))
      ]
