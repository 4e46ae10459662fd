-- ===== src/Recovery/Wal/Tail.antt =====
-- src/recovery/wal.cpp, the search behind a damaged tail: `FindLastNonZero`, `ProbeFrameAt`,
-- `SearchForFrameAfter`. A read that fails ends the whole scan, so it is the failure of `Io` here.
pub mod Reads
pub mod Zeroes
use lineair_db.Base.{
  ℕ, zero, suc, ◌+◌, ◌-◌, ◌*◌, ◌^◌, min, Bool, true, false, not, ◌||◌, Option, none, some,
}
use lineair_db.Base.{List, [], ◌∷◌, length, leb, ltb, ◌==◌, if◌then◌else◌, bit_xor}
use lineair_db.Recovery.Word.{get_le32}
use lineair_db.Recovery.Crc32c.{update_with_table}
use lineair_db.Recovery.Disk.{Io, ◌>>=◌, pure, pread_all}
use lineair_db.Recovery.Wal.{
  Header, parse_header, k_magic, k_version, k_flags, k_header_size, k_max_payload_size,
  k_chunk_size,
}

-- The index of the last byte that is not zero.
last_non_zero : List ℕ → Option ℕ
last_non_zero [] = none
last_non_zero (b ∷ l) = elim (last_non_zero l) [
  | some i ↦ some (suc i)
  | none ↦ if b == 0 then none else some 0
]

-- `none` where every byte of [from, to) is zero, which the code reports as `from - 1`.
find_loop : ℕ → ℕ → ℕ → Option ℕ → Io (Option ℕ)
unfolding last_non_zero
find_loop zero at to found = pure found
find_loop (suc fuel) at to found = if leb to at then pure found else (do
  chunk ← pread_all (min k_chunk_size (to - at)) at
  find_loop fuel (at + k_chunk_size) to
      (elim (last_non_zero chunk) [ some i ↦ some (at + i) | none ↦ found ]))

pub find_last_non_zero : ℕ → ℕ → Io (Option ℕ)
unfolding find_loop
find_last_non_zero from to = find_loop (to - from) from to none

pub data Probe : Type 0 where
  no_frame frame undecidable : Probe

abbrev pub k_probe_budget : ℕ
k_probe_budget = 1024 * 1024 * 1024

-- The checksum of a payload, read in chunks; each is charged to the budget.
payload_loop : ℕ → ℕ → ℕ → ℕ → ℕ → ℕ → ℕ → Io (Probe × ℕ)
payload_loop zero chunk at remaining budget crc stored = pure (undecidable, budget)
payload_loop (suc fuel) chunk at remaining budget crc stored =
    let size = min chunk remaining in
    if remaining == 0
    then pure ((if bit_xor crc 0xffff_ffff == stored then frame else no_frame), budget)
    else (if ltb k_probe_budget (budget + size) then pure (undecidable, budget) else (do
      bytes ← pread_all size at
      payload_loop fuel chunk (at + size) (remaining - size) (budget + size)
          (update_with_table crc bytes) stored))

probe_payload : ℕ → ℕ → Header → ℕ → Io (Probe × ℕ)
unfolding payload_loop
probe_payload offset file_size h budget =
    if not (h.magic == k_magic)
    then pure (no_frame, budget)
    else if not (h.version == k_version)
    then pure (no_frame, budget)
    else if not (h.flags == k_flags)
    then pure (no_frame, budget)
    else if h.epoch == 0
    then pure (no_frame, budget)
    else if h.payload_size == 0 || ltb k_max_payload_size h.payload_size
    then pure (no_frame, budget)
    else (if ltb file_size (offset + k_header_size + h.payload_size)
        then pure (no_frame, budget)
        else payload_loop (suc h.payload_size) (min k_chunk_size h.payload_size)
            (offset + k_header_size) h.payload_size budget (update_with_table 0xffff_ffff h.covered)
            h.crc)

-- The answer, and what has been read so far.
pub probe_frame_at : ℕ → ℕ → ℕ → Io (Probe × ℕ)
unfolding probe_payload
probe_frame_at offset file_size budget =
    if ltb (file_size - offset) k_header_size
    then pure (no_frame, budget)
    else (if ltb k_probe_budget (budget + k_header_size) then pure (undecidable, budget) else (do
      header ← pread_all k_header_size offset
      probe_payload offset file_size (parse_header header) (budget + k_header_size)))

-- A search goes on only behind a place that holds no frame.
pub unless_found : (ℕ → Io (Probe × ℕ)) → Probe × ℕ → Io (Probe × ℕ)
unless_found rest (no_frame, budget) = rest budget
unless_found rest (frame, budget) = pure (frame, budget)
unless_found rest (undecidable, budget) = pure (undecidable, budget)

-- The places of one chunk at which four bytes are left.
pub search_chunk : List ℕ → ℕ → ℕ → ℕ → Io (Probe × ℕ)
unfolding unless_found
search_chunk [] at file_size budget = pure (no_frame, budget)
search_chunk (b ∷ chunk) at file_size budget =
    let rest = search_chunk chunk (at + 1) file_size in
    if ltb (length (b ∷ chunk)) 4
    then pure (no_frame, budget)
    else (if get_le32 (b ∷ chunk) == k_magic
        then (probe_frame_at at file_size budget >>= unless_found rest)
        else rest budget)

-- Behind a chunk the search moves on by all but three of its bytes, so that a magic that straddles two
-- chunks is whole in one of them.
search_loop : ℕ → ℕ → ℕ → ℕ → ℕ → Io (Probe × ℕ)
unfolding search_chunk unless_found
search_loop zero at search_end file_size budget = pure (no_frame, budget)
search_loop (suc fuel) at search_end file_size budget =
    let size = min k_chunk_size (search_end - at) in
    let rest = search_loop fuel (at + (size - 3)) search_end file_size in
    if leb search_end at
    then pure (no_frame, budget)
    else (if ltb k_probe_budget (budget + size)
        then pure (undecidable, budget)
        else (pread_all size at >>= λ chunk.
            search_chunk chunk at file_size (budget + size)
            >>= unless_found
                (λ budget'. if leb size 3 then pure (no_frame, budget') else rest budget')))

pub search_for_frame_after : ℕ → ℕ → ℕ → Io Probe
unfolding search_loop
search_for_frame_after offset search_end file_size =
    search_loop (search_end - offset) (offset + 1) search_end file_size 0 >>= λ answer.
    pure answer.0
