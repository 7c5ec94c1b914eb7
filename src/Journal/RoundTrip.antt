-- ===== src/Journal/RoundTrip.antt =====
-- Outputs that are appended to a journal of internal/adapters/journal/journal.go are read back.
use native.Mathlib.Nat.{mod-eq_of_lt}
use mathlib.Core.List.{append-nil, append_assoc}
use harnessing.Prelude.{
  ℕ, ◌+◌, ◌<◌, ◌%◌, ◌^◌, String, false, none, List, [], ◌∷◌, ◌++◌, map, ◌≡◌, refl, ap, ◌∙◌, length,
  arith, All,
}
use harnessing.Domain.Errors.{ok}
use harnessing.Journal.{
  OutputChunk, Line, entry, JournalFile, empty_journal, JournalIo, max_scan_token_size, scanned,
  too_long, all_lines, end_offset, joined, append, next_chunk, collect_chunks, read_after,
}

-- One write of the drained pipe.
pub record Output : Type 0 where
  pub channel : String
  pub bytes : List ℕ
  pub captured_at : ℕ

abbrev pub no_fault : JournalIo
no_fault = record {
  cancelled = false;
  open_read = false;
  read_error = none;
  open_write = false;
  write = false;
  sync = false;
  close = false;
  read_status = false;
  partial = none;
}

-- The chunks that the outputs are to become, one behind the other.
abbrev pub chunks_from : ℕ → List Output → List OutputChunk
chunks_from n [] = []
chunks_from n (o ∷ os) =
    record { offset = n; channel = o.channel; bytes = o.bytes; captured_at = o.captured_at }
    ∷ chunks_from (n + length o.bytes) os

abbrev pub total_bytes : List Output → ℕ
total_bytes [] = 0
total_bytes (o ∷ os) = length o.bytes + total_bytes os

module _ (width : Line → ℕ) where
  unfoldable pub append_all : List Output → JournalFile → JournalFile
  append_all [] f = f
  append_all (o ∷ os) f = append_all os (append width no_fault o.channel o.bytes o.captured_at f).1

  abbrev pub Fits : OutputChunk → Type 0
  Fits c = width (entry c) < max_scan_token_size

  -- The file has these chunks, whole, and the next offset is `n`.
  record Clean (n : ℕ) (cs : List OutputChunk) (f : JournalFile) : Type 0 where
    pub whole : f.torn ≡ none
    pub there : f.created ≡ false → cs ≡ []
    pub no_status : f.status ≡ none
    pub lines : f.lines ≡ map entry cs
    pub short : too_long width (map entry cs) ≡ false
    pub end : end_offset 0 (map entry cs) ≡ n

  scanned-short : (ls : List Line) → too_long width ls ≡ false → scanned width ls ≡ ls
  unfolding scanned too_long
  scanned-short [] h = refl
  scanned-short (l ∷ ls) h = ground (arith, h, scanned-short ls)

  too_long-append :
      (ls : List Line) (l : Line)
      → too_long width ls ≡ false
      → width l < max_scan_token_size
      → too_long width (ls ++ l ∷ []) ≡ false
  unfolding too_long
  too_long-append [] l h k = ground (arith, k)
  too_long-append (x ∷ ls) l h k = ground (arith, h, too_long-append ls l, k)

  map-append_one :
      (cs : List OutputChunk) (c : OutputChunk)
      → map entry (cs ++ c ∷ []) ≡ map entry cs ++ entry c ∷ []
  map-append_one [] c = refl
  map-append_one (x ∷ cs) c = ap (λ ls. entry x ∷ ls) (map-append_one cs c)

  end_offset-append :
      (n : ℕ) (ls : List Line) (c : OutputChunk)
      → end_offset n (ls ++ entry c ∷ []) ≡ (c.offset + length c.bytes) % 2 ^ 64
  unfolding end_offset
  end_offset-append n [] c = refl
  end_offset-append n (entry x ∷ ls) c =
      end_offset-append ((x.offset + length x.bytes) % 2 ^ 64) ls c
  end_offset-append n (Line.undecodable o b ∷ ls) c =
      end_offset-append ((o + length b) % 2 ^ 64) ls c
  end_offset-append n (Line.garbage ∷ ls) c = end_offset-append n ls c

  append-Clean :
      (n : ℕ) (cs : List OutputChunk) (f : JournalFile) (o : Output)
      → Clean n cs f
      → n + length o.bytes < 2 ^ 64
      → All Fits (chunks_from n (o ∷ []))
      → Clean
          (n + length o.bytes)
          (cs ++ chunks_from n (o ∷ []))
          (append width no_fault o.channel o.bytes o.captured_at f).1
  unfolding append
  append-Clean n cs f o h room fits =
      let ls : List Line = map entry cs in
      let c : OutputChunk = record {
        offset = n;
        channel = o.channel;
        bytes = o.bytes;
        captured_at = o.captured_at;
      } in
      let all : all_lines f ≡ ls = rw h.whole h.lines in
      let at_n : end_offset 0 (scanned width (all_lines f)) ≡ n =
        rw (all, scanned-short ls h.short) h.end in
      let same : next_chunk width no_fault o.channel o.bytes o.captured_at f ≡ c =
        ap
          (λ k. record {
            offset = k;
            channel = o.channel;
            bytes = o.bytes;
            captured_at = o.captured_at;
          })
          at_n in
      record {
        whole = refl;
        no_status = h.no_status;
        there = λ e. absurd (cc);
        lines =
            ap (λ x. f.lines ++ joined f.torn (entry x) ∷ []) same
            ∙ rw (h.whole, h.lines, map-append_one cs c) refl;
        short = rw (map-append_one cs c) (too_long-append ls (entry c) h.short fits.0);
        end = rw (map-append_one cs c) (end_offset-append 0 ls c ∙ mod-eq_of_lt room);
      }

  append_all-Clean :
      (n : ℕ) (cs : List OutputChunk) (f : JournalFile) (os : List Output)
      → Clean n cs f
      → n + total_bytes os < 2 ^ 64
      → All Fits (chunks_from n os)
      → Clean (n + total_bytes os) (cs ++ chunks_from n os) (append_all os f)
  unfolding append_all
  append_all-Clean n cs f [] h room fits =
      let z : n + 0 ≡ n = omega arith in rw (z, append-nil cs) h
  append_all-Clean n cs f (o ∷ os) h room fits =
      let c : OutputChunk = record {
        offset = n;
        channel = o.channel;
        bytes = o.bytes;
        captured_at = o.captured_at;
      } in
      let once : Clean (n + length o.bytes) (cs ++ c ∷ [])
          (append width no_fault o.channel o.bytes o.captured_at f).1 =
        append-Clean n cs f o h (omega (arith, room)) (fits.0, tt) in
      let sum : n + total_bytes (o ∷ os) ≡ (n + length o.bytes) + total_bytes os = omega arith in
      rw (sum, ← append_assoc cs (c ∷ []) (chunks_from (n + length o.bytes) os))
        (append_all-Clean (n + length o.bytes) (cs ++ c ∷ [])
          (append width no_fault o.channel o.bytes o.captured_at f).1 os once
          (omega (arith, room, sum)) fits.1)

  collect_chunks-entries :
      (used : ℕ) (cs : List OutputChunk) → collect_chunks 0 0 used (map entry cs) ≡ cs
  unfolding collect_chunks
  collect_chunks-entries used [] = refl
  collect_chunks-entries used (c ∷ cs) =
      ground (arith, collect_chunks-entries (used + length c.bytes) cs)

  read_after-Clean :
      (n : ℕ) (cs : List OutputChunk) (f : JournalFile)
      → Clean n cs f
      → read_after width no_fault 0 0 f ≡ ok (record { chunks = cs; capture_status = "unknown" })
  unfolding read_after
  read_after-Clean n cs f h =
      let ls : List Line = map entry cs in
      let all : all_lines f ≡ ls = rw h.whole h.lines in
      ground (
        arith,
        all,
        h.short,
        scanned-short ls h.short,
        collect_chunks-entries 0 cs,
        h.no_status,
        h.there,
      )

  -- Outputs that are appended without a fault to an empty journal are read back by one ReadAfter
  -- without a limit, in order and each at the offset where the one before it ends, if their total
  -- length is below 2 ^ 64 and each line is short enough for the scanner.
  pub read_after-append_all :
      (os : List Output)
      → total_bytes os < 2 ^ 64
      → All Fits (chunks_from 0 os)
      → read_after width no_fault 0 0 (append_all os empty_journal)
        ≡ ok (record { chunks = chunks_from 0 os; capture_status = "unknown" })
  unfolding too_long end_offset
  read_after-append_all os room fits =
      read_after-Clean (0 + total_bytes os) (chunks_from 0 os) (append_all os empty_journal) (
        append_all-Clean 0 [] empty_journal os
          (record {
            whole = refl;
            there = λ e. refl;
            no_status = refl;
            lines = refl;
            short = refl;
            end = refl;
          })
          (omega (arith, room)) fits)
