-- ===== src/Upload/Chunks.antt =====
-- `chunkFile` of upload-file.js: a file is cut into numbered parts for a multipart upload.
pub mod Count
use streaming_service.Base.{
  Bool-cases, List, Option, [], arith, if◌then◌else◌, inl, inr, ltb, ltb→lt, max, min, none, refl,
  some, suc, tests, zero, ℕ, ◌*◌, ◌+◌, ◌-◌, ◌/◌, ◌<◌, ◌∷◌, ◌≡◌, ◌≤◌, ◌⊎◌,
}

abbrev pub max_parts : ℕ
max_parts = 10000

abbrev pub min_chunk : ℕ
min_chunk = 5 * 1024 * 1024

abbrev pub default_chunk : ℕ
default_chunk = 15 * 1024 * 1024

abbrev pub max_chunk : ℕ
max_chunk = 64 * 1024 * 1024

-- `Math.ceil(a / b)`, exact where the quotient of the doubles is.
abbrev ceil_div : ℕ → ℕ → ℕ
ceil_div a b = (a + b - 1) / b

resized : ℕ → ℕ
resized size =
    if ltb max_parts (ceil_div size default_chunk) then ceil_div size max_parts else default_chunk

unfoldable pub chunk_size : ℕ → ℕ
unfolding resized
chunk_size size = min (max (resized size) min_chunk) max_chunk

-- A part: its number, the slice of the file that it holds, and the slice's size.
pub record Chunk : Type 0 where
  pub part_number : ℕ
  pub from : ℕ
  pub upto : ℕ
  pub size : ℕ

-- The `while` loop; `none` means that the fuel ran out.
chunk_loop : ℕ → ℕ → ℕ → ℕ → ℕ → Option (List Chunk)
chunk_loop zero size step from part = none
chunk_loop (suc fuel) size step from part =
    let upto = min (from + step) size in
    let rest = chunk_loop fuel size step upto (part + 1) in
    if ltb from size
    then elim rest [
      | none ↦ none
      | some cs ↦
          some (record { part_number = part; from = from; upto = upto; size = upto - from } ∷ cs)
    ]
    else some []

-- The fuel is one more than the rounds that steps of the least size would take.
unfoldable pub chunk_file : ℕ → Option (List Chunk)
unfolding chunk_loop chunk_size
chunk_file size = chunk_loop (size / min_chunk + 2) size (chunk_size size) 0 1

-- The chunk size stays within the limits of the store, for every file.
pub chunk_size_bounds : (size : ℕ) → (min_chunk ≤ chunk_size size) × (chunk_size size ≤ max_chunk)
unfolding chunk_size
chunk_size_bounds size = (omega arith, omega arith)

-- The parts tile the bytes from `from` up to `size`: numbered in order, each begins where the one
-- before it ends, none is empty or longer than `step`, and only the last may be shorter.
abbrev pub Tiles : ℕ → ℕ → ℕ → ℕ → List Chunk → Type 0
Tiles step size from part [] = from ≡ size
Tiles step size from part (c ∷ cs) =
    (c.part_number ≡ part)
    × (c.from ≡ from)
    × (c.upto ≡ from + c.size)
    × (0 < c.size)
    × (c.size ≤ step)
    × ((c.size ≡ step) ⊎ (c.upto ≡ size))
    × Tiles step size c.upto (part + 1) cs

chunk_loop-Tiles :
    (fuel size step from part : ℕ)
    → min_chunk ≤ step
    → from ≤ size
    → size + min_chunk ≤ from + fuel * min_chunk
    → (cs : List Chunk) × (chunk_loop fuel size step from part ≡ some cs)
      × Tiles step size from part cs
unfolding chunk_loop
chunk_loop-Tiles zero size step from part hs hf hb = absurd (omega arith)
chunk_loop-Tiles (suc fuel) size step from part hs hf hb = elim (Bool-cases (ltb from size)) [
  | inl more ↦
      let (cs, e, tiles) =
        chunk_loop-Tiles fuel size step (min (from + step) size) (part + 1) hs (omega arith)
          (omega tests) in
      (
        record {
          part_number = part;
          from = from;
          upto = min (from + step) size;
          size = min (from + step) size - from;
        }
            ∷ cs,
        rw (more, e),
        (
          refl,
          refl,
          omega tests,
          omega tests,
          omega tests,
          ground (arith, ltb→lt from size more),
          tiles,
        ),
      )
  | inr done ↦ ([], rw done, ground arith)
]

-- Cutting always ends, and its parts tile the whole file.
pub chunk_file-Tiles :
    (size : ℕ)
    → (cs : List Chunk) × (chunk_file size ≡ some cs) × Tiles (chunk_size size) size 0 1 cs
unfolding chunk_file
chunk_file-Tiles size =
    chunk_loop-Tiles (size / min_chunk + 2) size (chunk_size size) 0 1 (chunk_size_bounds size).0
      (omega arith) (omega arith)
