-- ===== src/E2e/Split.antt =====
-- `split_plaintext` (src/e2e/chunker.rs) as a whole: what a success and a failure say.
use native.Mathlib.Decide.{dec_le}
use repartee_desktop.Base.{
  length-drop, ◌≢◌, ◌*◌, subst, length-take, take-append-drop, ◌∙◌, ◌++◌, ap, take, ◌⊎◌, drop, All,
  ◌≡◌, min, ◌<◌, length, Text, ℕ, List, [], ◌∷◌, zero, suc, inl, inr, refl, ◌≤◌, ◌+◌, arith,
}
use repartee_desktop.E2e.{E2eError, Result-cases, max_chunks, max_plaintext_per_chunk, ok, err}
use repartee_desktop.E2e.Chunker.{split_plaintext, walk_back, split_loop}
use repartee_desktop.E2e.Utf8.{IsUtf8-drop, Shape-take, IsUtf8}
use repartee_desktop.E2e.Chunks.{
  walk_back-near, walk_back-end, walk_back-boundary, walk_back-le, concat,
}

-- Where the first chunk of the rest ends.
abbrev chunk_end : Text → ℕ
chunk_end rest = walk_back rest (min max_plaintext_per_chunk (length rest))

chunk_end-le : (rest : Text) → (chunk_end rest ≤ 180) × (chunk_end rest ≤ length rest)
chunk_end-le rest = ground (arith, walk_back-le rest (min max_plaintext_per_chunk (length rest)))

-- In a well-formed text a chunk takes all that is left or at least 177 bytes.
chunk_end-large :
    (rest : Text) → IsUtf8 rest → (chunk_end rest ≡ length rest) ⊎ (177 ≤ chunk_end rest)
chunk_end-large rest s = elim (dec_le (length rest) max_plaintext_per_chunk) [
  | yes h ↦
      inl
        (walk_back-end rest (min max_plaintext_per_chunk (length rest)) (omega arith) ∙ omega arith)
  | no h ↦ inr (
      omega
        (arith, walk_back-near rest (min max_plaintext_per_chunk (length rest)) s (omega arith)))
]

-- A chunk of a sensible size.
abbrev pub IsChunk : Text → Type 0
IsChunk c = (0 < length c) × (length c ≤ max_plaintext_per_chunk)

-- What the outer loop promises of the chunks that it makes of a text.
pub record Splits (rest : Text) (count : ℕ) (chunks : List Text) : Type 0 where
  pub joined : concat chunks ≡ rest
  pub sized : All IsChunk chunks
  pub bounded : chunks ≡ [] ⊎ (count + length chunks ≤ max_chunks)
  pub shaped : IsUtf8 rest → All IsUtf8 chunks

split_step :
    (rest : Text) (count : ℕ) (chunks : List Text)
    → 0 < chunk_end rest
    → count + 1 ≤ max_chunks
    → Splits (drop (chunk_end rest) rest) (count + 1) chunks
    → Splits rest count (take (chunk_end rest) rest ∷ chunks)
split_step rest count chunks p h s = record {
  joined = ap (◌++◌ (take (chunk_end rest) rest)) s.joined ∙ take-append-drop (chunk_end rest) rest;
  sized = (omega (arith, length-take (chunk_end rest) rest, chunk_end-le rest), s.sized);
  bounded = inr (count_up chunks s.bounded);
  shaped = λ u. (
    Shape-take 0 (chunk_end rest) rest u,
    s.shaped (
        IsUtf8-drop rest (chunk_end rest) u
          (walk_back-boundary rest (min max_plaintext_per_chunk (length rest)))),
  );
}
  where
    count_up :
        (cs : List Text)
        → cs ≡ [] ⊎ (count + 1 + length cs ≤ max_chunks)
        → count + suc (length cs) ≤ max_chunks
    count_up cs (inl e) = rw e (omega arith)
    count_up cs (inr e) = omega arith

Splits-nil : (count : ℕ) → Splits [] count []
Splits-nil count = record { joined = refl; sized = tt; bounded = inl refl; shaped = λ u. tt }

split_loop-nil :
    (fuel count : ℕ) (chunks : List Text)
    → split_loop fuel [] count ≡ ok chunks
    → ◌≡◌ {A = List Text} [] chunks
unfolding split_loop
split_loop-nil zero count chunks e = ground arith
split_loop-nil (suc fuel) count chunks e = ground arith

split_loop-next :
    (fuel b : ℕ) (bs : Text) (count : ℕ) (more : List Text)
    → split_loop fuel (drop (chunk_end (b ∷ bs)) (b ∷ bs)) (count + 1) ≡ ok more
    → 0 < chunk_end (b ∷ bs)
    → count + 1 ≤ max_chunks
    → split_loop (suc fuel) (b ∷ bs) count ≡ ok (take (chunk_end (b ∷ bs)) (b ∷ bs) ∷ more)
unfolding split_loop
split_loop-next fuel b bs count more f p c = ground (arith, f)

-- A round of the outer loop that succeeds.
split_loop-round :
    (fuel b : ℕ) (bs : Text) (count : ℕ) (more chunks : List Text)
    → split_loop fuel (drop (chunk_end (b ∷ bs)) (b ∷ bs)) (count + 1) ≡ ok more
    → split_loop (suc fuel) (b ∷ bs) count ≡ ok chunks
    → (0 < chunk_end (b ∷ bs))
      × (count + 1 ≤ max_chunks)
      × (chunks ≡ take (chunk_end (b ∷ bs)) (b ∷ bs) ∷ more)
unfolding split_loop
split_loop-round fuel b bs count more chunks f e = ground (arith, f)

split_loop-failed :
    (fuel b : ℕ) (bs : Text) (count : ℕ) (chunks : List Text) (x : E2eError)
    → split_loop fuel (drop (chunk_end (b ∷ bs)) (b ∷ bs)) (count + 1) ≡ err x
    → split_loop (suc fuel) (b ∷ bs) count ≢ ok chunks
unfolding split_loop
split_loop-failed fuel b bs count chunks x f e = ground (arith, f)

split_loop-Splits :
    (fuel : ℕ) (rest : Text) (count : ℕ) (chunks : List Text)
    → length rest ≤ fuel
    → split_loop fuel rest count ≡ ok chunks
    → Splits rest count chunks
split_loop-Splits zero [] count chunks h e =
    subst (Splits [] count) (split_loop-nil zero count chunks e) (Splits-nil count)
split_loop-Splits zero (b ∷ bs) count chunks h e = absurd (omega arith)
split_loop-Splits (suc fuel) [] count chunks h e =
    subst (Splits [] count) (split_loop-nil (suc fuel) count chunks e) (Splits-nil count)
split_loop-Splits (suc fuel) (b ∷ bs) count chunks h e =
    elim (Result-cases (split_loop fuel (drop (chunk_end (b ∷ bs)) (b ∷ bs)) (count + 1))) [
      | inr (x, f) ↦ absurd (split_loop-failed fuel b bs count chunks x f e)
      | inl (more, f) ↦
          let (p, c, same) = split_loop-round fuel b bs count more chunks f e in
          rw same (
            split_step (b ∷ bs) count more p c (
              split_loop-Splits fuel (drop (chunk_end (b ∷ bs)) (b ∷ bs)) (count + 1) more
                (omega (arith, length-drop (chunk_end (b ∷ bs)) (b ∷ bs))) f))
    ]

split_plaintext-loop :
    (plaintext : Text) (chunks : List Text)
    → split_plaintext plaintext ≡ ok chunks
    → (split_loop (length plaintext) plaintext 0 ≡ ok chunks)
      × (length chunks ≤ max_chunks)
      × (plaintext ≢ [])
unfolding split_plaintext
split_plaintext-loop plaintext chunks e =
    elim (Result-cases (split_loop (length plaintext) plaintext 0)) [
      | inr (x, f) ↦ absurd (ground (arith, f))
      | inl (more, f) ↦ (ground (arith, f), ground (arith, f), λ empty. ground (arith, empty))
    ]

-- When a plaintext is split, the chunks in a row are the plaintext, there are at most sixteen, none
-- is empty or longer than 180 bytes, and each is well-formed UTF-8 if the plaintext is.
pub split_plaintext_sound :
    (plaintext : Text) (chunks : List Text)
    → split_plaintext plaintext ≡ ok chunks
    → (concat chunks ≡ plaintext)
      × (length chunks ≤ 16)
      × All IsChunk chunks
      × (IsUtf8 plaintext → All IsUtf8 chunks)
split_plaintext_sound plaintext chunks e =
    let (looped, few, _) = split_plaintext-loop plaintext chunks e in
    let s = split_loop-Splits (length plaintext) plaintext 0 chunks (omega arith) looped in
    (s.joined, few, s.sized, s.shaped)

-- The loop succeeds on what the chunks that are left can hold at 177 bytes each.
split_loop-fits :
    (fuel : ℕ) (rest : Text) (count : ℕ)
    → length rest ≤ fuel
    → IsUtf8 rest
    → length rest + 177 * count ≤ 2832
    → (chunks : List Text) × (split_loop fuel rest count ≡ ok chunks) × (count + length chunks ≤ 16)
split_loop-fits zero [] count h u fits = ([], unfold split_loop in refl, omega arith)
split_loop-fits zero (b ∷ bs) count h u fits = absurd (omega arith)
split_loop-fits (suc fuel) [] count h u fits = ([], unfold split_loop in refl, omega arith)
split_loop-fits (suc fuel) (b ∷ bs) count h u fits =
    let end = chunk_end (b ∷ bs) in
    let large = chunk_end-large (b ∷ bs) u in
    let small = chunk_end-le (b ∷ bs) in
    let (more, f, few) =
      split_loop-fits fuel (drop end (b ∷ bs)) (count + 1) (omega (arith, length-drop end (b ∷ bs)))
        (IsUtf8-drop (b ∷ bs) end u
          (walk_back-boundary (b ∷ bs) (min max_plaintext_per_chunk (length (b ∷ bs)))))
        (omega (arith, length-drop end (b ∷ bs))) in
    (
      take end (b ∷ bs) ∷ more,
      split_loop-next fuel b bs count more f (omega arith) (omega arith),
      omega arith,
    )

-- Every well-formed text of 1 to 2832 bytes, which is 16 times 177, is split: a round always
-- advances, and the chunks do not run out.
pub split_plaintext_total :
    (plaintext : Text)
    → IsUtf8 plaintext
    → 0 < length plaintext
    → length plaintext ≤ 2832
    → (chunks : List Text) × (split_plaintext plaintext ≡ ok chunks)
unfolding split_plaintext
split_plaintext_total [] u p h = elim p [ ]
split_plaintext_total (b ∷ bs) u p h =
    let (chunks, f, few) =
      split_loop-fits (length (b ∷ bs)) (b ∷ bs) 0 (omega arith) u (omega arith) in
    (chunks, ground (arith, f))
