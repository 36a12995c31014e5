-- ===== src/E2e/Aad.antt =====
-- The authenticated data of src/e2e/wire.rs determines the channel and the chunk.
use repartee_desktop.Base.{
  min, Text, ◌+◌, ap, ◌-◌, ◌*◌, zero, sym, refl, ◌∙◌, [], ◌%◌, ◌/◌, length-append, ◌<◌, suc, List,
  arith, ◌≡◌, ◌++◌, ◌∷◌, ℕ, length,
}
use repartee_desktop.E2e.Wire.{proto, build_aad, be_bytes, to_be_bytes}
use repartee_desktop.Base.Numbers.{ℤ, pos, negsuc, IsI64}

append_same {ℓ} :
    {A : Type ℓ} (a b s t : List A) → length a ≡ length b → a ++ s ≡ b ++ t → (a ≡ b) × (s ≡ t)
append_same [] [] s t n e = (refl, e)
append_same [] (y ∷ b) s t n e = absurd (omega arith)
append_same (x ∷ a) [] s t n e = absurd (omega arith)
append_same (x ∷ a) (y ∷ b) s t n e = ground (arith, append_same a b s t)

length-be_bytes : (w n : ℕ) → length (be_bytes w n) ≡ w
length-be_bytes zero n = refl
length-be_bytes (suc w) n =
    length-append (be_bytes w (n / 256)) (n % 256 ∷ []) ∙ omega (arith, length-be_bytes w (n / 256))

-- One more than the greatest number of so many bytes.
abbrev bound : ℕ → ℕ
bound zero = 1
bound (suc w) = 256 * bound w

be_bytes_injective : (w m n : ℕ) → m < bound w → n < bound w → be_bytes w m ≡ be_bytes w n → m ≡ n
be_bytes_injective zero m n hm hn e = omega arith
be_bytes_injective (suc w) m n hm hn e =
    let (high, low) =
      append_same (be_bytes w (m / 256)) (be_bytes w (n / 256)) (m % 256 ∷ []) (n % 256 ∷ [])
        (length-be_bytes w (m / 256) ∙ sym (length-be_bytes w (n / 256))) e in
    let same : m / 256 ≡ n / 256 =
      be_bytes_injective w (m / 256) (n / 256) (omega arith) (omega arith) high in
    let last : m % 256 ≡ n % 256 = ground arith in omega arith

length-to_be_bytes : (z : ℤ) → length (to_be_bytes z) ≡ 8
length-to_be_bytes (pos n) = length-be_bytes 8 n
length-to_be_bytes (negsuc n) = length-be_bytes 8 (18446744073709551615 - n)

to_be_bytes_injective : (y z : ℤ) → IsI64 y → IsI64 z → to_be_bytes y ≡ to_be_bytes z → y ≡ z
to_be_bytes_injective (pos m) (pos n) hy hz e =
    ap pos (be_bytes_injective 8 m n (omega arith) (omega arith) e)
to_be_bytes_injective (pos m) (negsuc n) hy hz e =
    let same = be_bytes_injective 8 m (18446744073709551615 - n) (omega arith) (omega arith) e in
    absurd (omega arith)
to_be_bytes_injective (negsuc m) (pos n) hy hz e =
    let same = be_bytes_injective 8 (18446744073709551615 - m) n (omega arith) (omega arith) e in
    absurd (omega arith)
to_be_bytes_injective (negsuc m) (negsuc n) hy hz e =
    let same =
      be_bytes_injective 8 (18446744073709551615 - m) (18446744073709551615 - n) (omega arith)
        (omega arith) e in
    ap negsuc (omega arith)

abbrev after_ts : ℕ → ℕ → List ℕ
after_ts part total = be_bytes 2 1 ++ (part ∷ (be_bytes 2 1 ++ (total ∷ [])))

abbrev after_msgid : ℤ → ℕ → ℕ → List ℕ
after_msgid ts part total = be_bytes 2 8 ++ (to_be_bytes ts ++ after_ts part total)

abbrev after_channel : List ℕ → ℤ → ℕ → ℕ → List ℕ
after_channel msgid ts part total = be_bytes 2 8 ++ (msgid ++ after_msgid ts part total)

after_ts_injective :
    (part part' total total' : ℕ)
    → after_ts part total ≡ after_ts part' total'
    → (part ≡ part') × (total ≡ total')
after_ts_injective part part' total total' e = ground arith

after_msgid_injective :
    (ts ts' : ℤ) (part part' total total' : ℕ)
    → IsI64 ts
    → IsI64 ts'
    → after_msgid ts part total ≡ after_msgid ts' part' total'
    → (ts ≡ ts') × (part ≡ part') × (total ≡ total')
after_msgid_injective ts ts' part part' total total' range range' e =
    let (_, rest) =
      append_same (be_bytes 2 8) (be_bytes 2 8) (to_be_bytes ts ++ after_ts part total)
        (to_be_bytes ts' ++ after_ts part' total') refl e in
    let (times, rest') =
      append_same (to_be_bytes ts) (to_be_bytes ts') (after_ts part total) (after_ts part' total')
        (length-to_be_bytes ts ∙ sym (length-to_be_bytes ts')) rest in
    let (parts, totals) = after_ts_injective part part' total total' rest' in
    (to_be_bytes_injective ts ts' range range' times, parts, totals)

after_channel_injective :
    (id id' : List ℕ) (ts ts' : ℤ) (part part' total total' : ℕ)
    → length id ≡ length id'
    → IsI64 ts
    → IsI64 ts'
    → after_channel id ts part total ≡ after_channel id' ts' part' total'
    → (id ≡ id') × (ts ≡ ts') × (part ≡ part') × (total ≡ total')
after_channel_injective id id' ts ts' part part' total total' n range range' e =
    let (_, rest) =
      append_same (be_bytes 2 8) (be_bytes 2 8) (id ++ after_msgid ts part total)
        (id' ++ after_msgid ts' part' total') refl e in
    let (ids, rest') =
      append_same id id' (after_msgid ts part total) (after_msgid ts' part' total') n rest in
    let (times, parts, totals) =
      after_msgid_injective ts ts' part part' total total' range range' rest' in
    (ids, times, parts, totals)

length-after_channel :
    (msgid : List ℕ) (ts : ℤ) (part total : ℕ)
    → length (after_channel msgid ts part total) ≡ length msgid + 18
length-after_channel msgid ts part total = omega (
  arith,
  length-to_be_bytes ts,
  length-append msgid (after_msgid ts part total),
  length-append (to_be_bytes ts) (after_ts part total),
)

-- The authenticated data of two chunks with eight-byte message ids and `i64` times agree only if
-- the channels, the message ids, the times, the parts and the totals do, however long the channels
-- are.
pub build_aad_injective :
    (channel channel' : Text) (id id' : List ℕ) (ts ts' : ℤ) (part part' total total' : ℕ)
    → length id ≡ 8
    → length id' ≡ 8
    → IsI64 ts
    → IsI64 ts'
    → build_aad channel id ts part total ≡ build_aad channel' id' ts' part' total'
    → (channel ≡ channel') × (id ≡ id') × (ts ≡ ts') × (part ≡ part') × (total ≡ total')
unfolding build_aad
build_aad_injective channel channel' id id' ts ts' part part' total total' h h' range range' e =
    let rest = after_channel id ts part total in
    let rest' = after_channel id' ts' part' total' in
    let size = be_bytes 2 (min (length channel) 65535) in
    let size' = be_bytes 2 (min (length channel') 65535) in
    let (_, tails) =
      append_same proto proto (size ++ (channel ++ rest)) (size' ++ (channel' ++ rest')) refl e in
    let (_, named) = append_same size size' (channel ++ rest) (channel' ++ rest') refl tails in
    let whole : length (channel ++ rest) ≡ length (channel' ++ rest') = ap length named in
    let same : length channel ≡ length channel' = omega (
      arith,
      whole,
      length-append channel rest,
      length-append channel' rest',
      length-after_channel id ts part total,
      length-after_channel id' ts' part' total',
    ) in
    let (channels, last) = append_same channel channel' rest rest' same named in
    let (ids, times, parts, totals) =
      after_channel_injective id id' ts ts' part part' total total' (h ∙ sym h') range range'
        last in
    (channels, ids, times, parts, totals)
