-- ===== src/Journal/Reading.antt =====
-- What ReadAfter of internal/adapters/journal/journal.go gives of what Append wrote.
use harnessing.Prelude.{ℕ, ◌+◌, ◌≤◌, List, [], ◌∷◌, ◌≡◌, length, ltb, arith, Bool-cases, inl, inr}
use harnessing.Domain.Errors.{ok}
use harnessing.Journal.{
  OutputChunk, RunOutput, Line, entry, undecodable, garbage, JournalFile, JournalIo, scanned,
  delivered, collect_chunks, read_after,
}

-- The bytes of some chunks.
abbrev pub size : List OutputChunk → ℕ
size [] = 0
size (c ∷ cs) = length c.bytes + size cs

collect_chunks-size :
    (after limit used : ℕ) (ls : List Line)
    → 1 ≤ limit
    → used ≤ limit
    → used + size (collect_chunks after limit used ls) ≤ limit
unfolding collect_chunks
collect_chunks-size after limit used [] h k = omega (arith, k)
collect_chunks-size after limit used (entry c ∷ ls) h k =
    elim (Bool-cases (ltb limit (used + length c.bytes))) [
      | inl e ↦ ground (arith, e, k, h, collect_chunks-size after limit used ls h k)
      | inr e ↦
          let room : used + length c.bytes ≤ limit = ground (arith, e) in
          ground (
            arith,
            e,
            k,
            h,
            collect_chunks-size after limit used ls h k,
            collect_chunks-size after limit (used + length c.bytes) ls h room,
          )
    ]
collect_chunks-size after limit used (undecodable o b ∷ ls) h k =
    collect_chunks-size after limit used ls h k
collect_chunks-size after limit used (garbage ∷ ls) h k =
    collect_chunks-size after limit used ls h k

-- For a limit above 0, the chunks that a ReadAfter returns have no more bytes together than the
-- limit, whatever stands in the file.
pub read_after-size :
    (width : Line → ℕ) (io : JournalIo) (after limit : ℕ) (f : JournalFile) (out : RunOutput)
    → 1 ≤ limit
    → read_after width io after limit f ≡ ok out
    → size out.chunks ≤ limit
unfolding read_after
read_after-size width io after limit f out h e = ground (
  arith,
  e,
  collect_chunks-size after limit 0 (scanned width (delivered io.read_error f)) h (omega arith),
)
