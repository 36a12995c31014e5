-- ===== src/E2e/Coders.antt =====
-- Coders that meet what src/e2e/wire.rs relies on: two letters for a byte.
use repartee_desktop.Base.{
  subst, inl, inr, Bool-cases, refl, ◌-◌, ◌%◌, ◌+◌, All, ◌*◌, true, ◌&&◌, leb, ◌/◌, ltb, ◌<◌, [],
  List, if◌then◌else◌, arith, ◌≡◌, ◌∷◌, ℕ, all, length,
}
use repartee_desktop.Base.Chars.{len_utf8, Str, len}
use repartee_desktop.E2e.Wire.{Decoded-cases, Codec, Decoded, decoded, refused}
use repartee_desktop.E2e.Lines.{is_base64_char, is_hex_digit, IsStandard, IsByte}

abbrev nibble : ℕ → ℕ
nibble n = if ltb n 10 then b'0' + n else b'a' + (n - 10)

abbrev pub encode_pairs : List ℕ → Str
encode_pairs [] = []
encode_pairs (b ∷ bs) = nibble (b / 16 % 16) ∷ nibble (b % 16) ∷ encode_pairs bs

abbrev value : ℕ → ℕ
value c = if leb c b'9' then c - b'0' else c - b'a' + 10

abbrev with_byte : ℕ → Decoded → Decoded
with_byte b (decoded bs) = decoded (b ∷ bs)
with_byte b (refused text) = refused text

abbrev pub decode_pairs : Str → Decoded
decode_pairs [] = decoded []
decode_pairs (c ∷ []) = refused []
decode_pairs (c ∷ d ∷ s) =
    let rest = decode_pairs s in
    if is_hex_digit c && is_hex_digit d then with_byte (value c * 16 + value d) rest else refused []

abbrev pub pairs : Codec
pairs = record {
  hex_encode = encode_pairs;
  hex_decode = decode_pairs;
  base64_encode = encode_pairs;
  base64_decode = decode_pairs;
  i64_error = λ s. [];
  u8_error = λ s. [];
}

nibble-hex : (n : ℕ) → n < 16 → (is_hex_digit (nibble n) ≡ true) × (value (nibble n) ≡ n)
nibble-hex n h = ground arith

pub encode_pairs-hex : (b : List ℕ) → all is_hex_digit (encode_pairs b) ≡ true
encode_pairs-hex [] = refl
encode_pairs-hex (b ∷ bs) = ground (
  arith,
  nibble-hex (b / 16 % 16) (omega arith),
  nibble-hex (b % 16) (omega arith),
  encode_pairs-hex bs,
)

hex-base64 : (s : Str) → all is_hex_digit s ≡ true → all is_base64_char s ≡ true
hex-base64 [] h = refl
hex-base64 (c ∷ s) h = ground (arith, hex-base64 s)

length-encode_pairs : (b : List ℕ) → length (encode_pairs b) ≡ 2 * length b
length-encode_pairs [] = refl
length-encode_pairs (b ∷ bs) = omega (arith, length-encode_pairs bs)

pub decode_pairs-encode : (b : List ℕ) → All IsByte b → decode_pairs (encode_pairs b) ≡ decoded b
decode_pairs-encode [] h = refl
decode_pairs-encode (b ∷ bs) h =
    let (high, high_value) = nibble-hex (b / 16 % 16) (omega arith) in
    let (low, low_value) = nibble-hex (b % 16) (omega arith) in
    let byte : b / 16 % 16 * 16 + b % 16 ≡ b = omega (arith, h.0) in
    rw (high, low, high_value, low_value, byte, decode_pairs-encode bs h.1) refl

hex-value : (c : ℕ) → is_hex_digit c ≡ true → (value c < 16) × (len (c ∷ []) ≡ 1)
unfolding len_utf8
hex-value c h = ground arith

decode_pairs_sound :
    (s : Str) (b : List ℕ) → decode_pairs s ≡ decoded b → (len s ≡ 2 * length b) × All IsByte b
decode_pairs_sound [] [] h = (refl, tt)
decode_pairs_sound [] (b ∷ bs) h = ground arith
decode_pairs_sound (c ∷ []) b h = ground arith
decode_pairs_sound (c ∷ d ∷ s) b h = elim (Bool-cases (is_hex_digit c && is_hex_digit d)) [
  | inr wrong ↦ ground (arith, wrong)
  | inl right ↦ elim (Decoded-cases (decode_pairs s)) [
    | inr (text, fails) ↦ ground (arith, right, fails)
    | inl (bs, gives) ↦
        let same : (value c * 16 + value d) ∷ bs ≡ b = ground (arith, right, gives) in
        let first = hex-value c (ground (arith, right)) in
        let second = hex-value d (ground (arith, right)) in
        let (size, bytes) = decode_pairs_sound s bs gives in
        subst (λ (x : List ℕ). (len (c ∷ d ∷ s) ≡ 2 * length x) × All IsByte x) same
          (omega (arith, first, second, size), (omega (arith, first, second), bytes))
  ]
]

pub pairs-IsStandard : IsStandard pairs
pairs-IsStandard = record {
  hex_alphabet = encode_pairs-hex;
  hex_size = length-encode_pairs;
  hex_round = decode_pairs-encode;
  hex_decoded = decode_pairs_sound;
  base64_alphabet = λ b. hex-base64 (encode_pairs b) (encode_pairs-hex b);
  base64_round = decode_pairs-encode;
  base64_decoded = λ s b h. (decode_pairs_sound s b h).1;
}
