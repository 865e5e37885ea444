-- ===== src/Upload/Chunks/Count.antt =====
-- How many parts `chunkFile` of upload-file.js makes, and what they add up to.

use mathlib.Core.Path.{subst}
use streaming_service.Base.{
  List, [], arith, inl, inr, length, refl, some, ℕ, ◌*◌, ◌+◌, ◌<◌, ◌↔◌, ◌∷◌, ◌≡◌, ◌≤◌,
}
use streaming_service.Upload.Chunks.{
  Chunk, Tiles, chunk_file, chunk_file-Tiles, chunk_size, chunk_size_bounds, max_chunk, max_parts,
}

Tiles-le : (step size from part : ℕ) (cs : List Chunk) → Tiles step size from part cs → from ≤ size
Tiles-le step size from part [] t = omega arith
Tiles-le step size from part (c ∷ cs) t = omega (arith, Tiles-le step size c.upto (part + 1) cs t.6)

Tiles-end : (step size part : ℕ) (cs : List Chunk) → Tiles step size size part cs → cs ≡ []
Tiles-end step size part [] t = refl
Tiles-end step size part (c ∷ cs) t =
    absurd (omega (arith, Tiles-le step size c.upto (part + 1) cs t.6))

-- The number of parts is the size of the file over the step, rounded up.
length-Tiles :
    (step size from part : ℕ) (cs : List Chunk)
    → 0 < step
    → Tiles step size from part cs
    → (size ≤ from + length cs * step) × (from + length cs * step < size + step)
length-Tiles step size from part [] hs t = (omega arith, omega arith)
length-Tiles step size from part (c ∷ cs) hs t =
    let ih = length-Tiles step size c.upto (part + 1) cs hs t.6 in
    elim t.5 [
      | inl full ↦ (omega (arith, ih.0), omega (arith, ih.1))
      | inr last ↦
          let e : cs ≡ [] = Tiles-end step size (part + 1) cs (rw last at t.6) in
          rw e (omega arith, omega arith)
    ]

pub total_size : List Chunk → ℕ
total_size [] = 0
total_size (c ∷ cs) = c.size + total_size cs

-- The sizes of the parts, which the progress bar adds up, come to the size of the file.
total_size-Tiles :
    (step size from part : ℕ) (cs : List Chunk)
    → Tiles step size from part cs
    → from + total_size cs ≡ size
unfolding total_size
total_size-Tiles step size from part [] t = omega arith
total_size-Tiles step size from part (c ∷ cs) t =
    omega (arith, total_size-Tiles step size c.upto (part + 1) cs t.6)

-- The chunks of a file, which `chunkFile` always returns.
pub Tiles-of_chunk_file :
    (size : ℕ) (cs : List Chunk) → chunk_file size ≡ some cs → Tiles (chunk_size size) size 0 1 cs
Tiles-of_chunk_file size cs h =
    let (ds, e, t) = chunk_file-Tiles size in
    let same : ds ≡ cs = cc in subst (Tiles (chunk_size size) size 0 1) same t

-- The parts add up to the file.
pub total_size-chunk_file :
    (size : ℕ) (cs : List Chunk) → chunk_file size ≡ some cs → total_size cs ≡ size
total_size-chunk_file size cs h =
    omega (arith, total_size-Tiles (chunk_size size) size 0 1 cs (Tiles-of_chunk_file size cs h))

few_parts : (n k : ℕ) → n * k < max_parts * k + k → n ≤ max_parts
few_parts n k h = grind arith

ten_thousand_steps : (size : ℕ) → size ≤ max_parts * max_chunk → size ≤ max_parts * chunk_size size
unfolding chunk_size
ten_thousand_steps size h = ground arith

many_parts :
    (n k size : ℕ) → size ≤ n * k → k ≤ max_chunk → n ≤ max_parts → size ≤ max_parts * max_chunk
many_parts n k size h g f = grind arith

-- A file is cut into at most 10,000 parts exactly when it has at most 10,000 times 64 MB: up to
-- that size the chunks are made large enough, and beyond it the upper limit on them wins.
pub parts-le-max_iff :
    (size : ℕ) (cs : List Chunk)
    → chunk_file size ≡ some cs
    → (length cs ≤ max_parts) ↔ (size ≤ max_parts * max_chunk)
parts-le-max_iff size cs h =
    let bounds = chunk_size_bounds size in
    let count =
      length-Tiles (chunk_size size) size 0 1 cs (omega (arith, bounds.0))
        (Tiles-of_chunk_file size cs h) in
    (
      λ few. many_parts (length cs) (chunk_size size) size (omega (arith, count.0)) bounds.1 few,
      λ small.
          few_parts (length cs) (chunk_size size)
            (omega (arith, count.1, ten_thousand_steps size small)),
    )
