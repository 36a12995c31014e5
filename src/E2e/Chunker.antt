-- ===== src/E2e/Chunker.antt =====
-- src/e2e/chunker.rs: a plaintext cut into at most sixteen pieces of at most 180 bytes.
use repartee_desktop.Base.{
  take, ◌+◌, drop, not, ltb, codes, length, ◌==◌, ◌&&◌, is_empty, min, get_elem?, leb,
  if◌then◌else◌, Text, Bool, ℕ, List, [], ◌∷◌, zero, suc, true, none, some,
}
use repartee_desktop.E2e.{
  chunk_limit, max_chunks, ◌>>=◌, max_plaintext_per_chunk, wire, err, ok, Result,
}

-- A continuation byte of UTF-8.
abbrev pub is_continuation : ℕ → Bool
is_continuation b = leb 128 b && ltb b 192

-- `str::is_char_boundary`.
unfoldable pub is_char_boundary : Text → ℕ → Bool
is_char_boundary t zero = true
is_char_boundary t (suc i) = elim (get_elem? t (suc i)) [
  | none ↦ suc i == length t
  | some b ↦ not (is_continuation b)
]

-- The inner loop, over the text from the cursor on: back from `end` to a boundary or the cursor.
unfoldable pub walk_back : Text → ℕ → ℕ
unfolding is_char_boundary
walk_back rest zero = zero
walk_back rest (suc end) =
    let back = walk_back rest end in if is_char_boundary rest (suc end) then suc end else back

-- `u8::try_from(n).unwrap_or(u8::MAX)`.
abbrev pub saturate_u8 : ℕ → ℕ
saturate_u8 n = if leb n 255 then n else 255

-- The outer loop, over the text from the cursor on, with the number of chunks made so far. A round
-- takes at least one byte, so the length of the text is fuel enough.
unfoldable pub split_loop : ℕ → Text → ℕ → Result (List Text)
unfolding walk_back
split_loop zero rest count = ok []
split_loop (suc fuel) [] count = ok []
split_loop (suc fuel) (b ∷ bs) count =
    let rest : Text = b ∷ bs in
    let end = walk_back rest (min max_plaintext_per_chunk (length rest)) in
    let more = split_loop fuel (drop end rest) (count + 1) in
    if end == 0
    then err (wire (codes "cannot split: single UTF-8 char exceeds chunk budget"))
    else (if ltb max_chunks (count + 1)
        then err (chunk_limit (saturate_u8 (count + 1)))
        else more >>= λ chunks. ok (take end rest ∷ chunks))

unfoldable pub split_plaintext : Text → Result (List Text)
unfolding split_loop
split_plaintext plaintext =
    if is_empty plaintext
    then err (wire (codes "empty plaintext"))
    else split_loop (length plaintext) plaintext 0 >>= λ chunks.
        if ltb max_chunks (length chunks)
        then err (chunk_limit (saturate_u8 (length chunks)))
        else ok chunks
