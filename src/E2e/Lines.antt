-- ===== src/E2e/Lines.antt =====
-- The wire format of src/e2e/wire.rs: what is encoded is parsed again.
use repartee_desktop.Base.{
  codes, Text, ap, some, ◌≤◌, ◌&&◌, leb, ◌==◌, refl, ◌||◌, length-append, ◌∙◌, [], ◌*◌,
  is_ascii_digit, is_ascii_alphabetic, show_number, true, All, List, Bool, ◌<◌, arith, ◌≡◌, ◌++◌,
  ◌∷◌, ℕ, all, length,
}
use repartee_desktop.Base.Chars.{
  split_whitespace-space, split_whitespace-trim_start, split_once-append, strip_start-append,
  split_once, split_whitespace-word, split_whitespace-append, split_whitespace, lacks, len, is_word,
  Str,
}
use repartee_desktop.Base.Graphic.{
  show_integer-word, digits-lacks, show_number-graphic, graphic-append, len-graphic, graphic-word,
  is_graphic,
}
use repartee_desktop.E2e.Wire.{
  parse_u8, decode_base64, check_nonce, parse_after, check_part, parse_part_total, parse_words,
  payload, parse_ts, wire_prefix, parse_body, parse, decoded, Codec, WireChunk,
}
use repartee_desktop.Base.Numbers.{
  parse_unsigned-show, show_number-digits, parse_i64-show, show_integer, ℤ, IsI64,
}
use repartee_desktop.E2e.{ok, max_chunks}

abbrev pub IsByte : ℕ → Type 0
IsByte b = b < 256

abbrev pub is_base64_char : ℕ → Bool
is_base64_char c =
    is_ascii_alphabetic c || (is_ascii_digit c || (c == b'+' || (c == b'/' || c == b'=')))

abbrev pub is_hex_digit : ℕ → Bool
is_hex_digit c = is_ascii_digit c || leb b'a' c && leb c b'f'

-- What the code relies on of the coders: the alphabets, the sizes, and that decoding undoes
-- encoding.
pub record IsStandard (e : Codec) : Type 0 where
  pub hex_alphabet : (b : List ℕ) → all is_hex_digit (e.hex_encode b) ≡ true
  pub hex_size : (b : List ℕ) → length (e.hex_encode b) ≡ 2 * length b
  pub hex_round : (b : List ℕ) → All IsByte b → e.hex_decode (e.hex_encode b) ≡ decoded b
  pub hex_decoded :
      (s : Str) (b : List ℕ) → e.hex_decode s ≡ decoded b → (len s ≡ 2 * length b) × All IsByte b
  pub base64_alphabet : (b : List ℕ) → all is_base64_char (e.base64_encode b) ≡ true
  pub base64_round : (b : List ℕ) → All IsByte b → e.base64_decode (e.base64_encode b) ≡ decoded b
  pub base64_decoded : (s : Str) (b : List ℕ) → e.base64_decode s ≡ decoded b → All IsByte b

-- A chunk as the types of the source admit it.
pub record IsWireChunk (c : WireChunk) : Type 0 where
  pub msgid_size : length c.msgid ≡ 8
  pub msgid_bytes : All IsByte c.msgid
  pub ts_range : IsI64 c.ts
  pub part_range : c.part < 256
  pub total_range : c.total < 256
  pub nonce_size : length c.nonce ≡ 24
  pub nonce_bytes : All IsByte c.nonce
  pub ciphertext_bytes : All IsByte c.ciphertext

pub hex-graphic : (s : Str) → all is_hex_digit s ≡ true → all is_graphic s ≡ true
hex-graphic [] h = refl
hex-graphic (c ∷ s) h = ground (arith, hex-graphic s)

base64-graphic : (s : Str) → all is_base64_char s ≡ true → all is_graphic s ≡ true
base64-graphic [] h = refl
base64-graphic (c ∷ s) h = ground (arith, base64-graphic s)

base64-lacks : (s : Str) → all is_base64_char s ≡ true → lacks b':' s ≡ true
base64-lacks [] h = refl
base64-lacks (c ∷ s) h = ground (arith, base64-lacks s)

abbrev body_of : Codec → WireChunk → Str
body_of e c = e.base64_encode c.nonce ++ (b':' ∷ e.base64_encode c.ciphertext)

abbrev part_of : WireChunk → Str
part_of c = show_number c.part ++ (b'/' ∷ show_number c.total)

module _ (e : Codec) (std : IsStandard e) (c : WireChunk) (chunk : IsWireChunk c) where
  msgid-word : is_word (e.hex_encode c.msgid) ≡ true
  msgid-word =
      graphic-word (e.hex_encode c.msgid) (omega (arith, std.hex_size c.msgid, chunk.msgid_size))
        (hex-graphic (e.hex_encode c.msgid) (std.hex_alphabet c.msgid))

  msgid-len : len (e.hex_encode c.msgid) ≡ 16
  msgid-len =
      len-graphic (e.hex_encode c.msgid)
        (hex-graphic (e.hex_encode c.msgid) (std.hex_alphabet c.msgid))
      ∙ omega (arith, std.hex_size c.msgid, chunk.msgid_size)

  part-word : is_word (part_of c) ≡ true
  part-word =
      graphic-word (part_of c)
        (omega (arith, length-append (show_number c.part) (b'/' ∷ show_number c.total)))
        (graphic-append (show_number c.part) (b'/' ∷ show_number c.total)
          (show_number-graphic c.part) (ground (arith, show_number-graphic c.total)))

  body-word : is_word (body_of e c) ≡ true
  body-word =
      let nonce = e.base64_encode c.nonce in
      let text = e.base64_encode c.ciphertext in
      graphic-word (body_of e c) (omega (arith, length-append nonce (b':' ∷ text))) (
        graphic-append nonce (b':' ∷ text) (base64-graphic nonce (std.base64_alphabet c.nonce))
          (ground (arith, base64-graphic text (std.base64_alphabet c.ciphertext))))

four_words :
    (m t p b : Str)
    → is_word m ≡ true
    → is_word t ≡ true
    → is_word p ≡ true
    → is_word b ≡ true
    → split_whitespace (m ++ (32 ∷ (t ++ (32 ∷ (p ++ (32 ∷ b)))))) ≡ m ∷ t ∷ p ∷ b ∷ []
four_words m t p b hm ht hp hb =
    rw
      (
        split_whitespace-append m (t ++ (32 ∷ (p ++ (32 ∷ b)))) hm,
        split_whitespace-append t (p ++ (32 ∷ b)) ht,
        split_whitespace-append p b hp,
        split_whitespace-word b hb,
      )
      refl

after_prefix :
    (e : Codec) (s : Str) → parse e (wire_prefix ++ s) ≡ parse_words e (split_whitespace s)
unfolding parse
after_prefix e s =
    ap (parse_after e) (strip_start-append wire_prefix s)
    ∙ ap (parse_words e) (split_whitespace-trim_start s)

parse_ts-show : (e : Codec) (z : ℤ) → IsI64 z → parse_ts e (show_integer z) ≡ ok z
parse_ts-show e z h = rw (parse_ts, parse_i64-show z h) refl

parse_u8-show : (e : Codec) (what : Text) (n : ℕ) → n ≤ 255 → parse_u8 e what (show_number n) ≡ ok n
parse_u8-show e what n h = rw (parse_u8, parse_unsigned-show 255 n h) refl

check_nonce-sized : (nonce : List ℕ) → length nonce ≡ 24 → check_nonce nonce ≡ ok nonce
check_nonce-sized nonce h = rw (check_nonce, h) refl

parse_part_total-part_of :
    (e : Codec) (c : WireChunk)
    → 1 ≤ c.part
    → c.part ≤ c.total
    → c.total ≤ max_chunks
    → parse_part_total e (part_of c) ≡ ok (c.part, c.total)
parse_part_total-part_of e c one part total =
    let p = show_number c.part in
    let t = show_number c.total in
    let slash : split_once b'/' (part_of c) ≡ some (p, t) =
      split_once-append b'/' p t (digits-lacks b'/' p refl (show_number-digits c.part)) in
    let first = parse_u8-show e (codes "bad part: ") c.part (omega arith) in
    let second = parse_u8-show e (codes "bad total: ") c.total (omega arith) in
    let right : check_part c.part c.total ≡ ok (c.part, c.total) = ground arith in
    rw (parse_part_total, slash, first, second) right

module _ (e : Codec) (std : IsStandard e) (c : WireChunk) (chunk : IsWireChunk c) where
  decode_base64-encode : (b : List ℕ) → All IsByte b → decode_base64 e (e.base64_encode b) ≡ ok b
  decode_base64-encode b h = rw (decode_base64, std.base64_round b h) refl

  parse_body-body_of : parse_body e (body_of e c) ≡ ok (c.nonce, c.ciphertext)
  parse_body-body_of =
      let n = e.base64_encode c.nonce in
      let t = e.base64_encode c.ciphertext in
      let colon : split_once b':' (body_of e c) ≡ some (n, t) =
        split_once-append b':' n t (base64-lacks n (std.base64_alphabet c.nonce)) in
      rw
        (
          parse_body,
          colon,
          decode_base64-encode c.nonce chunk.nonce_bytes,
          check_nonce-sized c.nonce chunk.nonce_size,
          decode_base64-encode c.ciphertext chunk.ciphertext_bytes,
        )
        refl

  parse_words-payload :
      parse e (payload e c)
      ≡ parse_words e (e.hex_encode c.msgid ∷ show_integer c.ts ∷ part_of c ∷ body_of e c ∷ [])
  parse_words-payload =
      after_prefix e (
        32
        ∷ (e.hex_encode c.msgid
            ++ (32 ∷ (show_integer c.ts ++ (32 ∷ (part_of c ++ (32 ∷ body_of e c)))))))
      ∙ ap (parse_words e) (
          split_whitespace-space (
            e.hex_encode c.msgid
            ++ (32 ∷ (show_integer c.ts ++ (32 ∷ (part_of c ++ (32 ∷ body_of e c))))))
          ∙ four_words (e.hex_encode c.msgid) (show_integer c.ts) (part_of c) (body_of e c)
              (msgid-word e std c chunk) (show_integer-word c.ts) (part-word e std c chunk)
              (body-word e std c chunk))

  pub parse-payload :
      1 ≤ c.part
      → c.part ≤ c.total
      → c.total ≤ max_chunks
      → parse e (payload e c) ≡ some (ok (some c))
  parse-payload one part total =
      parse_words-payload
      ∙ rw
          (
            msgid-len e std c chunk,
            std.hex_round c.msgid chunk.msgid_bytes,
            chunk.msgid_size,
            parse_ts-show e c.ts chunk.ts_range,
            parse_part_total-part_of e c one part total,
            parse_body-body_of,
          )
          refl
