-- ===== src/Memtable/RecoverLaws.antt =====
-- The recovery replays the log, entries that run from one segment into the next included.
use rkvs.Base.{
  ℕ, ◌+◌, ◌-◌, ◌<◌, ◌≤◌, ◌^◌, ◌≡◌, refl, sym, ap, ◌∙◌, List, [], ◌∷◌, ◌++◌, append_assoc, Option,
  none, some, length, All, ok, Text, le→leb, lengths,
}
use rkvs.Wal.Entry.{WalEntry, header_size}
use rkvs.Wal.EntryLaws.{IsLoggable, layout}
use rkvs.Wal.Parse.{PartialWalEntry, Parsed, parse_validate_wal_entries}
use rkvs.Wal.ParseLaws.{log_of, header, rest_of, header-rest_of, parse-log_of, parse-split}
use rkvs.Memtable.Table.{Table}
use rkvs.Memtable.Recover.{
  SegmentFile, insert_entries, with_result, shift, unshift, read_parse_validate_from_offset,
  read_parse_validate_from_partial_record, recover,
}

-- A segment as it was written, behind the rest of an entry that the one before it begins: whole
-- entries, the header of one more or none, and what fills the segment up.
pub record Chunk : Type 0 where
  pub file_path : Text
  pub whole : List WalEntry
  pub cut : Option WalEntry
  pub padding : List ℕ

-- the entry of the segment before, then the whole ones
abbrev pub ended : Option WalEntry → Chunk → List WalEntry
ended none c = c.whole
ended (some e) c = e ∷ c.whole

-- The entries are put into the table in the order in which they end.
abbrev pub replay : Option WalEntry → List Chunk → Table × ℕ → Table × ℕ
replay carried [] s = s
replay carried (c ∷ cs) s = replay c.cut cs (insert_entries (ended carried c) s)

abbrev pub CutFits : Option WalEntry → List ℕ → Type 0
CutFits none padding = length padding < header_size
CutFits (some e) padding = IsLoggable e × (length padding < length (rest_of e))

-- The segments follow each other, and nothing is cut off at the end.
abbrev pub IsLog : Option WalEntry → List Chunk → Type 0
IsLog none [] = Unit
IsLog (some e) [] = ⊥
IsLog carried (c ∷ cs) = All IsLoggable (ended carried c) × CutFits c.cut c.padding × IsLog c.cut cs

module _ (checksum : List ℕ → ℕ) where
  abbrev pub start_of : Option WalEntry → List ℕ
  start_of none = []
  start_of (some e) = header checksum e

  abbrev pub continued : Option WalEntry → List ℕ
  continued none = []
  continued (some e) = rest_of e

  -- The files of the segments.
  abbrev pub file_of : Option WalEntry → Chunk → SegmentFile
  file_of carried c = record {
    file_path = c.file_path;
    contents = continued carried ++ (log_of checksum c.whole ++ (start_of c.cut ++ c.padding));
    failure = none;
  }

  abbrev pub files : Option WalEntry → List Chunk → List SegmentFile
  files carried [] = []
  files carried (c ∷ cs) = file_of carried c ∷ files c.cut cs

  -- the partial entry that the recovery has at hand
  abbrev Carries : Option WalEntry → Option PartialWalEntry → Type 0
  Carries none none = Unit
  Carries none (some p) = ⊥
  Carries (some e) none = ⊥
  Carries (some e) (some p) = p.bytes ≡ header checksum e

  module _ (fits : (bytes : List ℕ) → checksum bytes < 2 ^ 32) where
    abbrev part_of : Text → List WalEntry → Option WalEntry → Option PartialWalEntry
    part_of path es none = none
    part_of path es (some e) = some (record {
      segment_file_path = path;
      offset = length (log_of checksum es);
      bytes = header checksum e;
    })

    parse_chunk :
        (path : Text) (es : List WalEntry) (cut : Option WalEntry) (padding : List ℕ)
        → All IsLoggable es
        → CutFits cut padding
        → parse_validate_wal_entries checksum path (log_of checksum es ++ (start_of cut ++ padding))
          ≡ some (es, ok (part_of path es cut))
    parse_chunk path es none padding w c = parse-log_of checksum fits path es padding w c
    parse_chunk path es (some e) padding w (l, c) =
        parse-split checksum fits path es e padding w l c

    -- what a read returns: the entries that end in the segment, and what is carried on
    abbrev Returns : Parsed → List WalEntry → Option WalEntry → Type 0
    Returns r es cut = (q : Option PartialWalEntry) × Carries cut q × (r ≡ some (es, ok q))

    read_first :
        (c : Chunk)
        → All IsLoggable c.whole
        → CutFits c.cut c.padding
        → Returns (read_parse_validate_from_offset checksum (file_of none c) 0) c.whole c.cut
    unfolding read_parse_validate_from_offset
    read_first c w h =
        rw (parse_chunk c.file_path c.whole c.cut c.padding w h)
          (elim c.cut
            as (λ cut.
              Returns (with_result (shift 0) (some (c.whole, ok (part_of c.file_path c.whole cut))))
                c.whole cut) [
                  | none ↦ (none, tt, refl)
                  | some e ↦ (
                    some (record {
                      segment_file_path = c.file_path;
                      offset = length (log_of checksum c.whole) + 0;
                      bytes = header checksum e;
                    }),
                    refl,
                    refl,
                  )
                ])

    joined :
        (e : WalEntry) (whole : List WalEntry) (tail : List ℕ)
        → header checksum e ++ (rest_of e ++ (log_of checksum whole ++ tail))
          ≡ log_of checksum (e ∷ whole) ++ tail
    joined e whole tail =
        sym (append_assoc (header checksum e) (rest_of e) (log_of checksum whole ++ tail))
        ∙ (ap (λ xs. xs ++ (log_of checksum whole ++ tail)) (header-rest_of checksum e)
            ∙ sym (append_assoc (layout checksum e) (log_of checksum whole) tail))

    header_short :
        (e : WalEntry) (whole : List WalEntry)
        → length (header checksum e) ≤ length (log_of checksum (e ∷ whole))
    header_short e whole = omega lengths

    read_next :
        (e : WalEntry) (p : PartialWalEntry) (c : Chunk)
        → p.bytes ≡ header checksum e
        → All IsLoggable (e ∷ c.whole)
        → CutFits c.cut c.padding
        → Returns
            (read_parse_validate_from_partial_record checksum (file_of (some e) c) p.bytes)
            (e ∷ c.whole)
            c.cut
    unfolding read_parse_validate_from_partial_record
    read_next e p c hb w h =
        let es = e ∷ c.whole in
        rw
          (
            hb,
            joined e c.whole (start_of c.cut ++ c.padding),
            parse_chunk c.file_path es c.cut c.padding w h,
          )
          (elim c.cut
            as (λ cut.
              Returns
                (with_result (unshift (length (header checksum e)))
                  (some (es, ok (part_of c.file_path es cut))))
                es cut) [
                  | none ↦ (none, tt, refl)
                  | some f ↦ (
                    some (record {
                      segment_file_path = c.file_path;
                      offset = length (log_of checksum es) - length (header checksum e);
                      bytes = header checksum f;
                    }),
                    refl,
                    rw
                        (le→leb (length (header checksum e)) (length (log_of checksum es))
                          (header_short e c.whole))
                        refl,
                  )
                ])

    recover-replay_from :
        (cs : List Chunk) (carried : Option WalEntry) (p : Option PartialWalEntry) (s : Table × ℕ)
        → IsLog carried cs
        → Carries carried p
        → recover checksum (files carried cs) 0 p s
          ≡ some ((replay carried cs s).0, ok (replay carried cs s).1)
    unfolding recover
    recover-replay_from [] none none s l h = refl
    recover-replay_from [] none (some p) s l h = absurd h
    recover-replay_from [] (some e) p s l h = absurd l
    recover-replay_from (c ∷ cs) none none s (w, cut, l) h =
        let (q, hq, e) = read_first c w cut in
        rw e (recover-replay_from cs c.cut q (insert_entries c.whole s) l hq)
    recover-replay_from (c ∷ cs) none (some p) s l h = absurd h
    recover-replay_from (c ∷ cs) (some e) none s l h = absurd h
    recover-replay_from (c ∷ cs) (some e) (some p) s (w, cut, l) h =
        let (q, hq, eq) = read_next e p c h w cut in
        rw eq (recover-replay_from cs c.cut q (insert_entries (e ∷ c.whole) s) l hq)

    -- The segments of a log are recovered without an error, and every entry is put into the table,
    -- in the order in which the entries end: where the segments follow each other, each holds
    -- entries that can be logged, an entry that does not fit is divided behind its header, what
    -- fills a segment up is shorter than what is missing there, and nothing is cut off at the end.
    pub recover-replay :
        (cs : List Chunk) (s : Table × ℕ)
        → IsLog none cs
        → recover checksum (files none cs) 0 none s
          ≡ some ((replay none cs s).0, ok (replay none cs s).1)
    recover-replay cs s l = recover-replay_from cs none none s l tt
