-- ===== src/Recovery/Wal/Tail/Reads.antt =====
-- The search behind a damaged tail changes no byte.
use lineair_db.Base.{
  ℕ, zero, suc, ◌+◌, ◌-◌, min, not, ◌||◌, Option, none, List, [], ◌∷◌, length, leb, ltb, ◌==◌,
}
use lineair_db.Recovery.Word.{get_le32}
use lineair_db.Recovery.Crc32c.{update_with_table}
use lineair_db.Recovery.Disk.{Io, pread_all}
use lineair_db.Recovery.Disk.Reads.{Reads, Reads-pure, Reads-if, Reads-bind, Reads-pread_all}
use lineair_db.Recovery.Wal.{
  Header, parse_header, k_magic, k_version, k_flags, k_header_size, k_max_payload_size,
  k_chunk_size,
}
use lineair_db.Recovery.Wal.Tail.{
  find_loop, find_last_non_zero, Probe, no_frame, frame, undecidable, k_probe_budget, payload_loop,
  probe_payload, probe_frame_at, unless_found, search_chunk, search_loop, search_for_frame_after,
}

find_loop-Reads : (fuel at to : ℕ) (found : Option ℕ) → Reads (find_loop fuel at to found)
unfolding find_loop
find_loop-Reads zero at to found = Reads-pure _
find_loop-Reads (suc fuel) at to found = Reads-if (leb to at) (Reads-pure _) (
    Reads-bind (pread_all (min k_chunk_size (to - at)) at) _ (Reads-pread_all _ _)
      (λ chunk. find_loop-Reads fuel (at + k_chunk_size) to _))

pub find_last_non_zero-Reads : (from to : ℕ) → Reads (find_last_non_zero from to)
unfolding find_last_non_zero
find_last_non_zero-Reads from to = find_loop-Reads (to - from) from to none

payload_loop-Reads :
    (fuel chunk at remaining budget crc stored : ℕ)
    → Reads (payload_loop fuel chunk at remaining budget crc stored)
unfolding payload_loop
payload_loop-Reads zero chunk at remaining budget crc stored = Reads-pure _
payload_loop-Reads (suc fuel) chunk at remaining budget crc stored =
    Reads-if (remaining == 0) (Reads-pure _) (
      Reads-if (ltb k_probe_budget (budget + min chunk remaining)) (Reads-pure _) (
        Reads-bind (pread_all (min chunk remaining) at) _ (Reads-pread_all _ _) (λ bytes.
          payload_loop-Reads fuel chunk (at + min chunk remaining) (remaining - min chunk remaining)
            (budget + min chunk remaining) _ stored)))

probe_payload-Reads :
    (offset file_size : ℕ) (h : Header) (budget : ℕ)
    → Reads (probe_payload offset file_size h budget)
unfolding probe_payload
probe_payload-Reads offset file_size h budget = Reads-if (not (h.magic == k_magic)) (Reads-pure _) (
    Reads-if (not (h.version == k_version)) (Reads-pure _) (
      Reads-if (not (h.flags == k_flags)) (Reads-pure _) (
        Reads-if (h.epoch == 0) (Reads-pure _) (
          Reads-if (h.payload_size == 0 || ltb k_max_payload_size h.payload_size) (Reads-pure _) (
            Reads-if (ltb file_size (offset + k_header_size + h.payload_size)) (Reads-pure _) (
              payload_loop-Reads (suc h.payload_size) (min k_chunk_size h.payload_size)
                (offset + k_header_size) h.payload_size budget
                (update_with_table 0xffff_ffff h.covered) h.crc))))))

pub probe_frame_at-Reads :
    (offset file_size budget : ℕ) → Reads (probe_frame_at offset file_size budget)
unfolding probe_frame_at
probe_frame_at-Reads offset file_size budget =
    Reads-if (ltb (file_size - offset) k_header_size) (Reads-pure _) (
      Reads-if (ltb k_probe_budget (budget + k_header_size)) (Reads-pure _) (
        Reads-bind (pread_all k_header_size offset) _ (Reads-pread_all _ _) (λ header.
          probe_payload-Reads offset file_size (parse_header header) (budget + k_header_size))))

unless_found-Reads :
    (rest : ℕ → Io (Probe × ℕ)) (answer : Probe × ℕ)
    → ((budget : ℕ) → Reads (rest budget))
    → Reads (unless_found rest answer)
unfolding unless_found
unless_found-Reads rest (no_frame, budget) h = h budget
unless_found-Reads rest (frame, budget) h = Reads-pure _
unless_found-Reads rest (undecidable, budget) h = Reads-pure _

search_chunk-Reads :
    (chunk : List ℕ) (at file_size budget : ℕ) → Reads (search_chunk chunk at file_size budget)
unfolding search_chunk
search_chunk-Reads [] at file_size budget = Reads-pure _
search_chunk-Reads (b ∷ chunk) at file_size budget =
    let rest = search_chunk-Reads chunk (at + 1) file_size in
    Reads-if (ltb (length (b ∷ chunk)) 4) (Reads-pure _) (
      Reads-if (get_le32 (b ∷ chunk) == k_magic)
        (Reads-bind (probe_frame_at at file_size budget) _
          (probe_frame_at-Reads at file_size budget) (λ answer. unless_found-Reads _ answer rest))
        (rest budget))

search_loop-Reads :
    (fuel at search_end file_size budget : ℕ)
    → Reads (search_loop fuel at search_end file_size budget)
unfolding search_loop
search_loop-Reads zero at search_end file_size budget = Reads-pure _
search_loop-Reads (suc fuel) at search_end file_size budget =
    let size = min k_chunk_size (search_end - at) in
    Reads-if (leb search_end at) (Reads-pure _) (
      Reads-if (ltb k_probe_budget (budget + size)) (Reads-pure _) (
        Reads-bind (pread_all size at) _ (Reads-pread_all _ _) (λ chunk.
          Reads-bind (search_chunk chunk at file_size (budget + size)) _
            (search_chunk-Reads chunk at file_size (budget + size))
            (λ answer. unless_found-Reads _ answer (λ budget'.
              Reads-if (leb size 3) (Reads-pure _)
                (search_loop-Reads fuel (at + (size - 3)) search_end file_size budget'))))))

pub search_for_frame_after-Reads :
    (offset search_end file_size : ℕ) → Reads (search_for_frame_after offset search_end file_size)
unfolding search_for_frame_after
search_for_frame_after-Reads offset search_end file_size =
    Reads-bind (search_loop (search_end - offset) (offset + 1) search_end file_size 0) _
      (search_loop-Reads (search_end - offset) (offset + 1) search_end file_size 0)
      (λ answer. Reads-pure _)
