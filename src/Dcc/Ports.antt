-- ===== src/Dcc/Ports.antt =====
-- The port range of the configuration: `parse_port_range` of src/dcc/chat.rs and `pick_bind_port`
-- of src/commands/handlers_dcc.rs.
use repartee_desktop.Base.{
  [], refl, false, codes, length-append, text_eq, ltb, ◌∙◌, true, ◌&&◌, ◌||◌, none, ◌≢◌, ap, length,
  ◌==◌, leb, is_empty, ◌<◌, ◌≤◌, some, all, show_number, if◌then◌else◌, Option, arith, ◌≡◌, ◌++◌,
  ◌∷◌, ℕ,
}
use repartee_desktop.Base.Chars.{split_once-append, split_once-lacks, Str, trim, split_once}
use repartee_desktop.Base.Numbers.{parse_unsigned-show, show_number-digits, parse_unsigned}
use repartee_desktop.Base.Graphic.{
  show_number-length, show_number-graphic, digits-lacks, graphic-append, is_graphic, trim-graphic,
  graphic-lacks,
}

abbrev pub maybe_pair : Str → Option (Str × Str)
maybe_pair s = elim (split_once b' ' s) [
  | some (lo, hi) ↦ some (trim lo, trim hi)
  | none ↦ elim (split_once b'-' s) [ some (lo, hi) ↦ some (trim lo, trim hi) | none ↦ none ]
]

abbrev pub pair_of : Option ℕ → Option ℕ → ℕ × ℕ
pair_of (some lo) (some hi) = (lo, hi)
pair_of (some lo) none = (0, 0)
pair_of none _ = (0, 0)

abbrev pub range_of : Str → Option (Str × Str) → ℕ × ℕ
range_of s (some (lo, hi)) = pair_of (parse_unsigned 65535 lo) (parse_unsigned 65535 hi)
range_of s none = pair_of (parse_unsigned 65535 s) (parse_unsigned 65535 s)

abbrev pub parse_trimmed : Str → ℕ × ℕ
parse_trimmed s = if is_empty s || text_eq s (codes "0") then (0, 0) else range_of s (maybe_pair s)

unfoldable pub parse_port_range : Str → ℕ × ℕ
parse_port_range s = parse_trimmed (trim s)

-- `random_range` panics on an empty range, which is `none` here.
abbrev pub random_range : (ℕ → ℕ → ℕ) → ℕ → ℕ → Option ℕ
random_range random lo hi = if leb lo hi then some (random lo hi) else none

unfoldable pub pick_bind_port : (ℕ → ℕ → ℕ) → ℕ × ℕ → Option ℕ
pick_bind_port random (lo, hi) =
    if lo == 0 && hi == 0 then some 0 else (if lo == hi then some lo else random_range random lo hi)

abbrev range_text : ℕ → ℕ → Str
range_text lo hi = show_number lo ++ (b'-' ∷ show_number hi)

range_text-graphic : (lo hi : ℕ) → all is_graphic (range_text lo hi) ≡ true
range_text-graphic lo hi =
    graphic-append (show_number lo) (b'-' ∷ show_number hi) (show_number-graphic lo)
      (ground (arith, show_number-graphic hi))

maybe_pair-range_text :
    (lo hi : ℕ) → maybe_pair (range_text lo hi) ≡ some (show_number lo, show_number hi)
maybe_pair-range_text lo hi =
    let none_there =
      split_once-lacks b' ' (range_text lo hi)
        (graphic-lacks b' ' (range_text lo hi) refl (range_text-graphic lo hi)) in
    let dash =
      split_once-append b'-' (show_number lo) (show_number hi)
        (digits-lacks b'-' (show_number lo) refl (show_number-digits lo)) in
    rw
      (
        maybe_pair,
        none_there,
        dash,
        trim-graphic (show_number lo) (show_number-graphic lo),
        trim-graphic (show_number hi) (show_number-graphic hi),
      )
      refl

long-not-zero : (s : Str) → 2 ≤ length s → (is_empty s || text_eq s (codes "0")) ≡ false
long-not-zero [] h = absurd (omega arith)
long-not-zero (c ∷ []) h = absurd (omega arith)
long-not-zero (c ∷ d ∷ s) h = ground arith

parse_port_range-text :
    (lo hi : ℕ) → lo < 65536 → hi < 65536 → parse_port_range (range_text lo hi) ≡ (lo, hi)
unfolding parse_port_range
parse_port_range-text lo hi small small' =
    ap parse_trimmed (trim-graphic (range_text lo hi) (range_text-graphic lo hi))
    ∙ rw
        (
          long-not-zero (range_text lo hi) (
              omega (
                arith,
                length-append (show_number lo) (b'-' ∷ show_number hi),
                show_number-length lo,
                show_number-length hi,
              )),
          maybe_pair-range_text lo hi,
          parse_unsigned-show 65535 lo (omega arith),
          parse_unsigned-show 65535 hi (omega arith),
        )
        refl

-- A configured range of two different ports makes the choice of a port panic if the higher port
-- comes first, and otherwise gives the random port of the range.
pub pick_bind_port-range :
    (random : ℕ → ℕ → ℕ) (lo hi : ℕ)
    → lo < 65536
    → hi < 65536
    → lo ≢ hi
    → pick_bind_port random (parse_port_range (show_number lo ++ (b'-' ∷ show_number hi)))
      ≡ (if ltb hi lo then none else some (random lo hi))
unfolding pick_bind_port
pick_bind_port-range random lo hi small small' differ =
    ap (pick_bind_port random) (parse_port_range-text lo hi small small') ∙ ground arith
