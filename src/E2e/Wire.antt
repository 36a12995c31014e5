-- ===== src/E2e/Wire.antt =====
-- The wire format of src/e2e/wire.rs. A line is a list of code points. Hexadecimal and base64
-- coding and the texts of number errors are parameters.
use repartee_desktop.Base.{
  refl, inr, inl, ◌⊎◌, ◌≡◌, ◌==◌, ◌||◌, ◌++◌, ◌/◌, ◌%◌, ◌-◌, ltb, min, ◌∷◌, [], ℕ, zero, suc, List,
  Option, none, some, Text, codes, show_number, length, if◌then◌else◌,
}
use repartee_desktop.Base.Chars.{split_once, strip_start, Str, len, trim_start, split_whitespace}
use repartee_desktop.Base.Numbers.{ℤ, pos, negsuc, parse_i64, show_integer, parse_unsigned}
use repartee_desktop.E2e.{wire, chunk_limit, hex, base64, Result, ok, err, ◌>>=◌, max_chunks}

abbrev pub proto : Text
proto = codes "RPE2E01"

abbrev pub wire_prefix : Str
wire_prefix = codes "+RPE2E01"

pub record WireChunk : Type 0 where
  pub msgid : List ℕ
  pub ts : ℤ
  pub part : ℕ
  pub total : ℕ
  pub nonce : List ℕ
  pub ciphertext : List ℕ

-- What a decoder returns: bytes, or the text of its error.
pub data Decoded : Type 0 where
  decoded : List ℕ → Decoded
  refused : Text → Decoded

-- The crates hex and base64, and the texts of the number errors of `parse`.
pub record Codec : Type 0 where
  pub hex_encode : List ℕ → Str
  pub hex_decode : Str → Decoded
  pub base64_encode : List ℕ → Str
  pub base64_decode : Str → Decoded
  pub i64_error : Str → Text
  pub u8_error : Str → Text

abbrev pub payload : Codec → WireChunk → Str
payload e c =
    wire_prefix
    ++ (32
        ∷ (e.hex_encode c.msgid
            ++ (32
                ∷ (show_integer c.ts
                    ++ (32
                        ∷ ((show_number c.part ++ (b'/' ∷ show_number c.total))
                            ++ (32
                                ∷ (e.base64_encode c.nonce
                                    ++ (b':' ∷ e.base64_encode c.ciphertext)))))))))

unfoldable pub encode : Codec → WireChunk → Result Str
encode e c =
    if c.total == 0 || ltb max_chunks c.total
    then err (chunk_limit c.total)
    else (if c.part == 0 || ltb c.total c.part
        then err (
            wire (
              codes "invalid part/total: " ++ (show_number c.part ++ (b'/' ∷ show_number c.total))))
        else ok (payload e c))

abbrev pub parse_ts : Codec → Str → Result ℤ
parse_ts e ts_str = elim (parse_i64 ts_str) [
  | none ↦ err (wire (codes "bad ts: " ++ e.i64_error ts_str))
  | some ts ↦ ok ts
]

abbrev pub parse_u8 : Codec → Text → Str → Result ℕ
parse_u8 e what s = elim (parse_unsigned 255 s) [
  | none ↦ err (wire (what ++ e.u8_error s))
  | some n ↦ ok n
]

abbrev pub check_part : ℕ → ℕ → Result (ℕ × ℕ)
check_part part total =
    if total == 0 || (ltb max_chunks total || (part == 0 || ltb total part))
    then err (wire (codes "bad part/total " ++ (show_number part ++ (b'/' ∷ show_number total))))
    else ok (part, total)

abbrev pub parse_part_total : Codec → Str → Result (ℕ × ℕ)
parse_part_total e parttot = elim (split_once b'/' parttot) [
  | none ↦ err (wire (codes "part/total missing slash"))
  | some (p, t) ↦ do
    part ← parse_u8 e (codes "bad part: ") p
    total ← parse_u8 e (codes "bad total: ") t
    check_part part total
]

abbrev pub decode_base64 : Codec → Str → Result (List ℕ)
decode_base64 e s = elim (e.base64_decode s) [
  | decoded bytes ↦ ok bytes
  | refused text ↦ err (base64 text)
]

abbrev pub check_nonce : List ℕ → Result (List ℕ)
check_nonce nonce =
    if length nonce == 24
    then ok nonce
    else err (wire (codes "nonce must be 24 bytes, got " ++ show_number (length nonce)))

abbrev pub parse_body : Codec → Str → Result (List ℕ × List ℕ)
parse_body e body = elim (split_once b':' body) [
  | none ↦ err (wire (codes "missing nonce:ct separator"))
  | some (nonce_b64, ct_b64) ↦ do
    nonce_vec ← decode_base64 e nonce_b64
    nonce ← check_nonce nonce_vec
    ciphertext ← decode_base64 e ct_b64
    ok (nonce, ciphertext)
]

abbrev pub parse_rest : Codec → List ℕ → Str → Str → Str → Result (Option WireChunk)
parse_rest e msgid ts_str parttot body = do
  ts ← parse_ts e ts_str
  (part, total) ← parse_part_total e parttot
  (nonce, ciphertext) ← parse_body e body
  ok (
      some (record {
        msgid = msgid;
        ts = ts;
        part = part;
        total = total;
        nonce = nonce;
        ciphertext = ciphertext;
      }))

-- `copy_from_slice` panics, here `none`, unless the message id has eight bytes.
abbrev pub parse_fields : Codec → Str → Str → Str → Str → Option (Result (Option WireChunk))
parse_fields e msgid_hex ts_str parttot body =
    if len msgid_hex == 16
    then elim (e.hex_decode msgid_hex) [
      | refused text ↦ some (err (hex text))
      | decoded msgid ↦
          if length msgid == 8 then some (parse_rest e msgid ts_str parttot body) else none
    ]
    else some (err (wire (codes "msgid must be 16 hex chars")))

abbrev pub parse_words : Codec → List Str → Option (Result (Option WireChunk))
parse_words e [] = some (err (wire (codes "missing msgid")))
parse_words e (m ∷ []) = some (err (wire (codes "missing ts")))
parse_words e (m ∷ t ∷ []) = some (err (wire (codes "missing part/total")))
parse_words e (m ∷ t ∷ p ∷ []) = some (err (wire (codes "missing body")))
parse_words e (m ∷ t ∷ p ∷ b ∷ []) = parse_fields e m t p b
parse_words e (m ∷ t ∷ p ∷ b ∷ x ∷ ws) = some (err (wire (codes "extra fields")))

-- What follows the prefix, if it is there; a line without it is clear text, `ok none`.
abbrev pub parse_after : Codec → Option Str → Option (Result (Option WireChunk))
parse_after e none = some (ok none)
parse_after e (some rest) = parse_words e (split_whitespace (trim_start rest))

unfoldable pub parse : Codec → Str → Option (Result (Option WireChunk))
parse e line = parse_after e (strip_start wire_prefix line)

-- `to_be_bytes` of an unsigned number of so many bytes.
abbrev pub be_bytes : ℕ → ℕ → List ℕ
be_bytes zero n = []
be_bytes (suc w) n = be_bytes w (n / 256) ++ (n % 256 ∷ [])

-- `to_be_bytes` of an `i64`, in two's complement.
abbrev pub to_be_bytes : ℤ → List ℕ
to_be_bytes (pos n) = be_bytes 8 n
to_be_bytes (negsuc n) = be_bytes 8 (18446744073709551615 - n)

-- The channel is the bytes of its name.
unfoldable pub build_aad : Text → List ℕ → ℤ → ℕ → ℕ → List ℕ
build_aad channel msgid ts part total =
    proto
    ++ (be_bytes 2 (min (length channel) 65535)
        ++ (channel
            ++ (be_bytes 2 8
                ++ (msgid
                    ++ (be_bytes 2 8
                        ++ (to_be_bytes ts
                            ++ (be_bytes 2 1 ++ (part ∷ (be_bytes 2 1 ++ (total ∷ []))))))))))

pub Decoded-cases :
    (d : Decoded) → ((b : List ℕ) × (d ≡ decoded b)) ⊎ ((text : Text) × (d ≡ refused text))
Decoded-cases (decoded b) = inl (b, refl)
Decoded-cases (refused text) = inr (text, refl)
