-- ===== src/E2e/Tests.antt =====
-- The chunker of src/e2e/chunker.rs at concrete inputs.
use repartee_desktop.Base.{
  none, decimal_digits, some, show_number, All, zero, ◌≤◌, length, ◌++◌, ◌≡◌, arith, suc, codes,
  Text, ℕ, List, [], ◌∷◌, refl,
}
use repartee_desktop.E2e.Chunker.{is_char_boundary, walk_back, split_loop, split_plaintext}
use repartee_desktop.E2e.Utf8.{IsUtf8}
use repartee_desktop.E2e.Chunks.{concat}
use repartee_desktop.E2e.{wire, ok, err}
use repartee_desktop.E2e.Split.{split_plaintext_sound, IsChunk, split_plaintext_total}
use repartee_desktop.E2e.Wire.{parse, encode, WireChunk}
use repartee_desktop.Base.Chars.{split_once, len_utf8, is_whitespace, strip_start, Str}
use repartee_desktop.E2e.Lines.{IsWireChunk}
use repartee_desktop.Base.Numbers.{digits_from, parse_unsigned, parse_i64, show_integer, negsuc}
use repartee_desktop.E2e.Coders.{pairs-IsStandard, pairs}
use repartee_desktop.E2e.Parsed.{parse-encode, parse_range, IsPart}
use repartee_desktop.E2e.Aad.{build_aad_injective}

abbrev hi : Text
hi = codes "hi"

hi_split : split_plaintext hi ≡ ok (hi ∷ [])
unfolding split_plaintext split_loop walk_back is_char_boundary
hi_split = refl

empty_refused : split_plaintext [] ≡ err (wire (codes "empty plaintext"))
unfolding split_plaintext
empty_refused = refl

abbrev repeat : ℕ → Text → Text
repeat zero t = []
repeat (suc n) t = t ++ repeat n t

-- 178 letters and a character of four bytes: the cut falls before the character.
cut_before_character :
    split_plaintext (repeat 178 (codes "x") ++ (0xf0 ∷ 0x9f ∷ 0x92 ∷ 0xa9 ∷ []))
    ≡ ok (repeat 178 (codes "x") ∷ (0xf0 ∷ 0x9f ∷ 0x92 ∷ 0xa9 ∷ []) ∷ [])
unfolding split_plaintext split_loop walk_back is_char_boundary
cut_before_character = refl

hi-IsUtf8 : IsUtf8 hi
hi-IsUtf8 = ground arith

split_plaintext_sound_example :
    (concat (hi ∷ []) ≡ hi)
    × (length (hi ∷ []) ≤ 16)
    × All IsChunk (hi ∷ [])
    × (IsUtf8 hi → All IsUtf8 (hi ∷ []))
split_plaintext_sound_example = split_plaintext_sound hi (hi ∷ []) hi_split

split_plaintext_total_example : (chunks : List Text) × (split_plaintext hi ≡ ok chunks)
split_plaintext_total_example = split_plaintext_total hi hi-IsUtf8 (omega arith) (omega arith)

abbrev chunk : WireChunk
chunk = record {
  msgid = 1 ∷ 2 ∷ 3 ∷ 4 ∷ 5 ∷ 6 ∷ 7 ∷ 255 ∷ [];
  ts = negsuc 41;
  part = 2;
  total = 16;
  nonce =
      0 ∷ 1 ∷ 2 ∷ 3 ∷ 4 ∷ 5 ∷ 6 ∷ 7 ∷ 8 ∷ 9 ∷ 10 ∷ 11 ∷ 12 ∷ 13 ∷ 14 ∷ 15 ∷ 16 ∷ 17 ∷ 18 ∷ 19 ∷ 20
      ∷ 21 ∷ 22 ∷ 23 ∷ [];
  ciphertext = 200 ∷ 10 ∷ [];
}

abbrev chunk_line : Str
chunk_line =
    codes "+RPE2E01 01020304050607ff -42 2/16 000102030405060708090a0b0c0d0e0f1011121314151617:c80a"

chunk_encoded : encode pairs chunk ≡ ok chunk_line
unfolding encode show_number show_integer decimal_digits
chunk_encoded = refl

chunk-IsWireChunk : IsWireChunk chunk
chunk-IsWireChunk = record {
  msgid_size = refl;
  msgid_bytes = ground arith;
  ts_range = omega arith;
  part_range = omega arith;
  total_range = omega arith;
  nonce_size = refl;
  nonce_bytes = ground arith;
  ciphertext_bytes = ground arith;
}

chunk_parsed : parse pairs chunk_line ≡ some (ok (some chunk))
unfolding parse strip_start is_whitespace len_utf8 parse_i64 parse_unsigned digits_from split_once
chunk_parsed = refl

missing_slash :
    parse pairs (codes "+RPE2E01 0102030405060708 1 1 00:00")
    ≡ some (err (wire (codes "part/total missing slash")))
unfolding parse strip_start is_whitespace len_utf8 parse_i64 parse_unsigned digits_from split_once
missing_slash = refl

clear_text : parse pairs (codes "hello +RPE2E01") ≡ some (ok none)
unfolding parse strip_start
clear_text = refl

parse-encode_example :
    (line : Str) × (encode pairs chunk ≡ ok line) × (parse pairs line ≡ some (ok (some chunk)))
parse-encode_example =
    parse-encode pairs chunk pairs-IsStandard chunk-IsWireChunk
      (omega arith, omega arith, omega arith)

parse_range_example : IsWireChunk chunk × IsPart chunk.part chunk.total
parse_range_example = parse_range pairs chunk_line chunk pairs-IsStandard chunk_parsed

build_aad_injective_example :
    (codes "#rust" ≡ codes "#rust")
    × (chunk.msgid ≡ chunk.msgid)
    × (chunk.ts ≡ chunk.ts)
    × (chunk.part ≡ chunk.part)
    × (chunk.total ≡ chunk.total)
build_aad_injective_example =
    build_aad_injective (codes "#rust") (codes "#rust") chunk.msgid chunk.msgid chunk.ts chunk.ts
      chunk.part chunk.part chunk.total chunk.total refl refl (omega arith) (omega arith) refl
