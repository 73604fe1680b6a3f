-- ===== src/Memtable/LogStored.antt =====
-- The segments of the log in front of the active one, and the files that hold them.
use rkvs.Base.{
  ℕ, suc, ◌<◌, ◌≤◌, ◌≡◌, ◌≢◌, sym, ap, ◌∙◌, arith, List, [], ◌∷◌, ◌++◌, true, Option, none, length,
  All, All-append, Text, text_lt, text_lt_irrefl,
}
use rkvs.Wal.Entry.{WalEntry}
use rkvs.Wal.EntryLaws.{IsLoggable}
use rkvs.Wal.NameLaws.{IsNamed, IsNamed-text_lt}
use rkvs.Wal.ParseLaws.{log_of}
use rkvs.Wal.Segment.{FileSystem}
use rkvs.Wal.DiskLaws.{DiskLaws}
use rkvs.SsTable.Writer.SortLaws.{Above, AscendsKeys}
use rkvs.Memtable.RecoverLaws.{Chunk, CutFits, ended, continued, start_of}
use rkvs.Memtable.Chunks.{Follows, Follows-append, paths_of}

module _ (fs : FileSystem) (disk : DiskLaws fs) (checksum : List ℕ → ℕ) (size : ℕ)
    (size_pos : 0 < size) where
  -- The files hold the segments.
  abbrev pub OnDisk : fs.Disk → Option WalEntry → List Chunk → Type 0
  OnDisk d a [] = Unit
  OnDisk d a (c ∷ cs) =
      (disk.read c.file_path d
        ≡ continued checksum a
          ++ (log_of checksum c.whole ++ (start_of checksum c.cut ++ c.padding)))
      × OnDisk d c.cut cs

  -- the file of a segment is as long as it may be
  abbrev pub IsFilled : fs.Disk → Chunk → Type 0
  IsFilled d c = length (disk.read c.file_path d) ≡ size

  -- a segment that starts before a multiple of the size
  pub record Earlier (bound : ℕ) (c : Chunk) : Type 0 where
    pub number : ℕ
    pub named : IsNamed size number c.file_path
    pub before : number < bound

  Earlier-ne :
      (bound number : ℕ) (c : Chunk) (path : Text)
      → Earlier bound c
      → IsNamed size number path
      → bound ≤ number
      → c.file_path ≢ path
  Earlier-ne bound number c path h n k same =
      let before =
        IsNamed-text_lt size h.number number c.file_path path size_pos h.named n
          (omega (arith, h.before, k)) in
      cc (before, text_lt_irrefl path, same)

  Earlier-le : (a b : ℕ) (cs : List Chunk) → a ≤ b → All (Earlier a) cs → All (Earlier b) cs
  Earlier-le a b [] h hs = tt
  Earlier-le a b (c ∷ cs) h (k, hs) = (
    record { number = k.number; named = k.named; before = omega (arith, h, k.before) },
    Earlier-le a b cs h hs,
  )

  -- files that a call leaves alone
  OnDisk-others :
      (d d' : fs.Disk) (a : Option WalEntry) (cs : List Chunk) (bound number : ℕ) (path : Text)
      → All (Earlier bound) cs
      → IsNamed size number path
      → bound ≤ number
      → ((other : Text) → other ≢ path → disk.read other d' ≡ disk.read other d)
      → OnDisk d a cs
      → OnDisk d' a cs
  OnDisk-others d d' a [] bound number path h e k others hs = tt
  OnDisk-others d d' a (c ∷ cs) bound number path (h, more) e k others (here, hs) = (
    others c.file_path (Earlier-ne bound number c path h e k) ∙ here,
    OnDisk-others d d' c.cut cs bound number path more e k others hs,
  )

  pub OnDisk-append :
      (d : fs.Disk) (a b : Option WalEntry) (cs : List Chunk) (c : Chunk)
      → Follows a cs b
      → OnDisk d a cs
      → disk.read c.file_path d
        ≡ continued checksum b
          ++ (log_of checksum c.whole ++ (start_of checksum c.cut ++ c.padding))
      → OnDisk d a (cs ++ c ∷ [])
  OnDisk-append d a b [] c h hs here = (
    here
        ∙ ap
            (λ x.
              continued checksum x
              ++ (log_of checksum c.whole ++ (start_of checksum c.cut ++ c.padding)))
            (sym h),
    tt,
  )
  OnDisk-append d a b (x ∷ cs) c (wx, fx, h) (hx, hs) here =
      (hx, OnDisk-append d x.cut b cs c h hs here)

  filled-others :
      (d d' : fs.Disk) (cs : List Chunk) (bound number : ℕ) (path : Text)
      → All (Earlier bound) cs
      → IsNamed size number path
      → bound ≤ number
      → ((other : Text) → other ≢ path → disk.read other d' ≡ disk.read other d)
      → All (IsFilled d) cs
      → All (IsFilled d') cs
  filled-others d d' [] bound number path h n k others hs = tt
  filled-others d d' (c ∷ cs) bound number path (h, more) n k others (here, hs) = (
    ap (λ l. length l) (others c.file_path (Earlier-ne bound number c path h n k)) ∙ here,
    filled-others d d' cs bound number path more n k others hs,
  )

  -- What the disk holds of the segments in front of a multiple of the size, up to a carried entry.
  pub record Stored (d : fs.Disk) (bound : ℕ) (done : List Chunk) (carried : Option WalEntry)
      : Type 0 where
    pub follows : Follows none done carried
    pub before : All (Earlier bound) done
    pub ascends : AscendsKeys (paths_of done)
    pub on_disk : OnDisk d none done
    pub filled : All (IsFilled d) done

  pub Stored-others :
      (d d' : fs.Disk) (bound number : ℕ) (done : List Chunk) (carried : Option WalEntry)
      (path : Text)
      → Stored d bound done carried
      → IsNamed size number path
      → bound ≤ number
      → ((other : Text) → other ≢ path → disk.read other d' ≡ disk.read other d)
      → Stored d' number done carried
  Stored-others d d' bound number done carried path h n k others = record {
    follows = h.follows;
    before = Earlier-le bound number done k h.before;
    ascends = h.ascends;
    on_disk = OnDisk-others d d' none done bound number path h.before n k others h.on_disk;
    filled = filled-others d d' done bound number path h.before n k others h.filled;
  }

  Above-Earlier :
      (number : ℕ) (k : Text) (cs : List Chunk) (c : Chunk)
      → Above k (paths_of cs)
      → text_lt k c.file_path ≡ true
      → Above k (paths_of (cs ++ c ∷ []))
  Above-Earlier number k [] c h l = (l, tt)
  Above-Earlier number k (x ∷ cs) c (hx, h) l = (hx, Above-Earlier number k cs c h l)

  -- the names of the segments ascend, that of a later one included
  pub paths_of-AscendsKeys :
      (number : ℕ) (cs : List Chunk) (c : Chunk)
      → All (Earlier number) cs
      → IsNamed size number c.file_path
      → AscendsKeys (paths_of cs)
      → AscendsKeys (paths_of (cs ++ c ∷ []))
  paths_of-AscendsKeys number [] c hs n h = (tt, tt)
  paths_of-AscendsKeys number (x ∷ cs) c (hx, hs) n (above, h) = (
    Above-Earlier number x.file_path cs c above (
        IsNamed-text_lt size hx.number number x.file_path c.file_path size_pos hx.named n
          hx.before),
    paths_of-AscendsKeys number cs c hs n h,
  )

  pub Stored-append :
      (d : fs.Disk) (number : ℕ) (done : List Chunk) (carried : Option WalEntry) (c : Chunk)
      → Stored d number done carried
      → All IsLoggable (ended carried c)
      → CutFits c.cut c.padding
      → IsNamed size number c.file_path
      → disk.read c.file_path d
        ≡ continued checksum carried
          ++ (log_of checksum c.whole ++ (start_of checksum c.cut ++ c.padding))
      → length (disk.read c.file_path d) ≡ size
      → Stored d (suc number) (done ++ c ∷ []) c.cut
  Stored-append d number done carried c h loggable short named here full = record {
    follows = Follows-append none carried done c h.follows loggable short;
    before =
        All-append (Earlier (suc number)) done (c ∷ [])
          (Earlier-le number (suc number) done (omega arith) h.before)
          (record { number = number; named = named; before = omega arith }, tt);
    ascends = paths_of-AscendsKeys number done c h.before named h.ascends;
    on_disk = OnDisk-append d none carried done c h.follows h.on_disk here;
    filled = All-append (IsFilled d) done (c ∷ []) h.filled (full, tt);
  }
