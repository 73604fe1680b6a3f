-- ===== src/Memtable/Chunks.antt =====
-- Segments of the log that follow each other, and the entries that end in them.
use mathlib.Core.Path.{subst}
use rkvs.Base.{
  ℕ, ◌≡◌, refl, sym, ap, ◌∙◌, List, [], ◌∷◌, ◌++◌, append_assoc, append-nil, Option, none, some,
  All, Text,
}
use rkvs.Wal.Entry.{WalEntry}
use rkvs.Wal.EntryLaws.{IsLoggable}
use rkvs.Wal.ParseLaws.{log_of}
use rkvs.Memtable.RecoverLaws.{Chunk, ended, CutFits}

-- Segments that follow each other, from a carried entry to another.
abbrev pub Follows : Option WalEntry → List Chunk → Option WalEntry → Type 0
Follows a [] b = a ≡ b
Follows a (c ∷ cs) b = All IsLoggable (ended a c) × CutFits c.cut c.padding × Follows c.cut cs b

-- The entries of segments, in the order in which they end.
abbrev pub entries_of : Option WalEntry → List Chunk → List WalEntry
entries_of a [] = []
entries_of a (c ∷ cs) = ended a c ++ entries_of c.cut cs

-- a segment that is still written to
abbrev pub active : Text → List WalEntry → Chunk
active path whole = record { file_path = path; whole = whole; cut = none; padding = [] }

abbrev pub ended_by : Option WalEntry → List WalEntry → List WalEntry
ended_by carried whole = ended carried (active [] whole)

pub ended_by-append :
    (carried : Option WalEntry) (whole more : List WalEntry)
    → ended_by carried (whole ++ more) ≡ ended_by carried whole ++ more
ended_by-append none whole more = refl
ended_by-append (some e) whole more = refl

pub ended-ended_by :
    (carried : Option WalEntry) (c : Chunk) → ended carried c ≡ ended_by carried c.whole
ended-ended_by none c = refl
ended-ended_by (some e) c = refl

pub Follows-append :
    (a b : Option WalEntry) (cs : List Chunk) (c : Chunk)
    → Follows a cs b
    → All IsLoggable (ended b c)
    → CutFits c.cut c.padding
    → Follows a (cs ++ c ∷ []) c.cut
Follows-append a b [] c h w f = (subst (λ x. All IsLoggable (ended x c)) (sym h) w, f, refl)
Follows-append a b (x ∷ cs) c (wx, fx, h) w f = (wx, fx, Follows-append x.cut b cs c h w f)

pub entries_of-append :
    (a b : Option WalEntry) (cs : List Chunk) (c : Chunk)
    → Follows a cs b
    → entries_of a (cs ++ c ∷ []) ≡ entries_of a cs ++ ended b c
entries_of-append a b [] c h = append-nil (ended a c) ∙ ap (λ x. ended x c) h
entries_of-append a b (x ∷ cs) c (wx, fx, h) =
    ap (λ l. ended a x ++ l) (entries_of-append x.cut b cs c h)
    ∙ sym (append_assoc (ended a x) (entries_of x.cut cs) (ended b c))

pub log_of-append :
    (checksum : List ℕ → ℕ) (xs ys : List WalEntry)
    → log_of checksum (xs ++ ys) ≡ log_of checksum xs ++ log_of checksum ys
log_of-append checksum [] ys = refl
log_of-append checksum (x ∷ xs) ys = rw (log_of-append checksum xs ys) (simp append_assoc)

-- the files of the log, in their order
abbrev pub paths_of : List Chunk → List Text
paths_of [] = []
paths_of (c ∷ cs) = c.file_path ∷ paths_of cs
