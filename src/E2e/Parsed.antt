-- ===== src/E2e/Parsed.antt =====
-- The wire format of src/e2e/wire.rs: what the parser makes of any line, and what the encoder takes.
use repartee_desktop.Base.{
  ◌∙◌, ap, ◌↔◌, [], ◌==◌, none, ◌≢◌, Bool-cases, subst, some, codes, inr, inl, All, Option-cases,
  List, ◌≤◌, arith, ◌≡◌, ◌∷◌, ℕ, length,
}
use repartee_desktop.Base.Chars.{trim_start, split_whitespace, strip_start, len, split_once, Str}
use repartee_desktop.E2e.Wire.{
  wire_prefix, payload, encode, parse, parse_words, parse_rest, parse_body, parse_u8, Decoded-cases,
  decode_base64, check_nonce, parse_ts, parse_part_total, check_part, Codec, WireChunk,
}
use repartee_desktop.Base.Numbers.{ℤ, IsI64, parse_i64, parse_i64-range}
use repartee_desktop.E2e.Lines.{parse-payload, IsByte, IsStandard, IsWireChunk}
use repartee_desktop.E2e.{Result-cases, ok, max_chunks}

-- The part numbers of a chunk that is sent.
abbrev pub IsPart : ℕ → ℕ → Type 0
IsPart part total = (1 ≤ part) × (part ≤ total) × (total ≤ max_chunks)

parse_ts-range : (e : Codec) (s : Str) (z : ℤ) → parse_ts e s ≡ ok z → IsI64 z
parse_ts-range e s z h = elim (Option-cases (parse_i64 s)) [
  | inl fails ↦ ground (arith, fails)
  | inr (y, gives) ↦ ground (arith, gives, parse_i64-range s y gives)
]

check_part-range : (p t part total : ℕ) → check_part p t ≡ ok (part, total) → IsPart part total
check_part-range p t part total h = ground arith

parse_part_total-range :
    (e : Codec) (s : Str) (part total : ℕ)
    → parse_part_total e s ≡ ok (part, total)
    → IsPart part total
parse_part_total-range e s part total h = elim (Option-cases (split_once b'/' s)) [
  | inl fails ↦ ground (arith, fails)
  | inr ((p, t), gives) ↦ elim (Result-cases (parse_u8 e (codes "bad part: ") p)) [
    | inr (x, fails) ↦ ground (arith, gives, fails)
    | inl (y, first) ↦ elim (Result-cases (parse_u8 e (codes "bad total: ") t)) [
      | inr (x, fails) ↦ ground (arith, gives, first, fails)
      | inl (z, second) ↦ check_part-range y z part total (ground (arith, gives, first, second))
    ]
  ]
]

check_nonce-size : (v nonce : List ℕ) → check_nonce v ≡ ok nonce → (v ≡ nonce) × (length nonce ≡ 24)
check_nonce-size v nonce h = ground arith

decode_base64-bytes :
    (e : Codec) (s : Str) (b : List ℕ) → IsStandard e → decode_base64 e s ≡ ok b → All IsByte b
decode_base64-bytes e s b std h = elim (Decoded-cases (e.base64_decode s)) [
  | inl (v, gives) ↦ ground (arith, gives, std.base64_decoded s v gives)
  | inr (text, fails) ↦ ground (arith, fails)
]

module _ (e : Codec) (std : IsStandard e) where
  parse_body-range :
      (s : Str) (nonce ciphertext : List ℕ)
      → parse_body e s ≡ ok (nonce, ciphertext)
      → (length nonce ≡ 24) × All IsByte nonce × All IsByte ciphertext
  parse_body-range s nonce ciphertext h = elim (Option-cases (split_once b':' s)) [
    | inl fails ↦ ground (arith, fails)
    | inr ((n, t), gives) ↦ elim (Result-cases (decode_base64 e n)) [
      | inr (x, fails) ↦ ground (arith, gives, fails)
      | inl (v, first) ↦ elim (Result-cases (check_nonce v)) [
        | inr (x, fails) ↦ ground (arith, gives, first, fails)
        | inl (m, second) ↦ elim (Result-cases (decode_base64 e t)) [
          | inr (x, fails) ↦ ground (arith, gives, first, second, fails)
          | inl (x, third) ↦ ground (
            arith,
            gives,
            first,
            second,
            third,
            check_nonce-size v m second,
            decode_base64-bytes e n v std first,
            decode_base64-bytes e t x std third,
          )
        ]
      ]
    ]
  ]

  parse_rest-range :
      (id : List ℕ) (t p b : Str) (c : WireChunk)
      → length id ≡ 8
      → All IsByte id
      → parse_rest e id t p b ≡ ok (some c)
      → IsWireChunk c × IsPart c.part c.total
  parse_rest-range id t p b c size bytes h = elim (Result-cases (parse_ts e t)) [
    | inr (x, fails) ↦ ground (arith, fails)
    | inl (z, first) ↦ elim (Result-cases (parse_part_total e p)) [
      | inr (x, fails) ↦ ground (arith, first, fails)
      | inl ((part, total), second) ↦ elim (Result-cases (parse_body e b)) [
        | inr (x, fails) ↦ ground (arith, first, second, fails)
        | inl ((nonce, ciphertext), third) ↦
            let built : WireChunk = record {
              msgid = id;
              ts = z;
              part = part;
              total = total;
              nonce = nonce;
              ciphertext = ciphertext;
            } in
            let same : built ≡ c = ground (arith, first, second, third) in
            let (n, bytes_n, bytes_x) = parse_body-range b nonce ciphertext third in
            let parts = parse_part_total-range e p part total second in
            let typed : IsWireChunk built = record {
              msgid_size = size;
              msgid_bytes = bytes;
              ts_range = parse_ts-range e t z first;
              part_range = omega arith;
              total_range = omega arith;
              nonce_size = n;
              nonce_bytes = bytes_n;
              ciphertext_bytes = bytes_x;
            } in
            subst (λ x. IsWireChunk x × IsPart x.part x.total) same (typed, parts)
      ]
    ]
  ]

  parse_words-range :
      (ws : List Str) (c : WireChunk)
      → parse_words e ws ≡ some (ok (some c))
      → IsWireChunk c × IsPart c.part c.total
  parse_words-range [] c h = cc
  parse_words-range (m ∷ []) c h = cc
  parse_words-range (m ∷ t ∷ []) c h = cc
  parse_words-range (m ∷ t ∷ p ∷ []) c h = cc
  parse_words-range (m ∷ t ∷ p ∷ b ∷ x ∷ ws) c h = cc
  parse_words-range (m ∷ t ∷ p ∷ b ∷ []) c h = elim (Bool-cases (len m == 16)) [
    | inr wrong ↦ ground (arith, wrong)
    | inl right ↦ elim (Decoded-cases (e.hex_decode m)) [
      | inr (text, fails) ↦ ground (arith, right, fails)
      | inl (id, gives) ↦ elim (Bool-cases (length id == 8)) [
        | inr wrong ↦ ground (arith, right, gives, wrong)
        | inl size ↦
            parse_rest-range id t p b c (ground arith) (std.hex_decoded m id gives).1
              (ground (arith, right, gives, size))
      ]
    ]
  ]

  parse_words-returns : (ws : List Str) → parse_words e ws ≢ none
  parse_words-returns [] h = cc
  parse_words-returns (m ∷ []) h = cc
  parse_words-returns (m ∷ t ∷ []) h = cc
  parse_words-returns (m ∷ t ∷ p ∷ []) h = cc
  parse_words-returns (m ∷ t ∷ p ∷ b ∷ x ∷ ws) h = cc
  parse_words-returns (m ∷ t ∷ p ∷ b ∷ []) h = elim (Bool-cases (len m == 16)) [
    | inr wrong ↦ ground (arith, wrong)
    | inl right ↦ elim (Decoded-cases (e.hex_decode m)) [
      | inr (text, fails) ↦ ground (arith, right, fails)
      | inl (id, gives) ↦
          let size : length id ≡ 8 = ground (arith, (std.hex_decoded m id gives).0) in
          ground (arith, right, gives, size)
    ]
  ]

-- No line makes the parser panic, with coders as documented.
pub parse_returns : (e : Codec) → IsStandard e → (line : Str) → parse e line ≢ none
unfolding parse
parse_returns e std line h = elim (Option-cases (strip_start wire_prefix line)) [
  | inl fails ↦ ground (arith, fails)
  | inr (rest, gives) ↦
      parse_words-returns e std (split_whitespace (trim_start rest)) (rw gives at h)
]

-- A chunk that is parsed has a part from 1 to its total and a total of at most 16, an eight-byte
-- message id, a 24-byte nonce and an `i64` time, with coders as documented.
pub parse_range :
    (e : Codec) (line : Str) (c : WireChunk)
    → IsStandard e
    → parse e line ≡ some (ok (some c))
    → IsWireChunk c × IsPart c.part c.total
unfolding parse
parse_range e line c std h = elim (Option-cases (strip_start wire_prefix line)) [
  | inl fails ↦ ground (arith, fails)
  | inr (rest, gives) ↦
      parse_words-range e std (split_whitespace (trim_start rest)) c (rw gives at h)
]

-- A chunk is encoded exactly when its part is from 1 to its total and its total at most 16.
pub encode_iff :
    (e : Codec) (c : WireChunk) → ((line : Str) × (encode e c ≡ ok line)) ↔ IsPart c.part c.total
unfolding encode
encode_iff e c = (λ (line, h). ground arith, λ parts. (payload e c, ground arith))

pub encode-payload :
    (e : Codec) (c : WireChunk) (line : Str) → encode e c ≡ ok line → line ≡ payload e c
unfolding encode
encode-payload e c line h = ground arith

-- A chunk in the types' ranges whose part is from 1 to its total and total at most 16 is encoded,
-- and its line is parsed to that chunk, with coders as documented.
pub parse-encode :
    (e : Codec) (c : WireChunk)
    → IsStandard e
    → IsWireChunk c
    → IsPart c.part c.total
    → (line : Str) × (encode e c ≡ ok line) × (parse e line ≡ some (ok (some c)))
parse-encode e c std chunk parts =
    let (line, h) = (encode_iff e c).1 parts in
    let (one, part, total) = parts in
    (line, h, ap (parse e) (encode-payload e c line h) ∙ parse-payload e std c chunk one part total)
