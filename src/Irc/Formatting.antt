-- ===== src/Irc/Formatting.antt =====
-- Formatting codes and nick prefixes: src/irc/formatting.rs. A text is a list of bytes here.
use repartee_desktop.Base.{
  ltb, zero, ◌&&◌, false, leb, suc, ◌||◌, ◌==◌, map, [], Bool, if◌then◌else◌, ◌++◌, ◌∷◌, ℕ, length,
  Text, is_ascii_digit, codes, has_byte,
}

-- What a byte begins: a toggle or reset, a colour, a colour in hexadecimal, or a character.
pub data Kind : Type 0 where
  toggle colour hex_colour plain : Kind

abbrev pub kind_of : ℕ → Kind
kind_of b =
    if b == 0x02 || (b == 0x1d || (b == 0x1f || (b == 0x1e || (b == 0x16 || b == 0x0f))))
    then toggle
    else (if b == 0x03 then colour else (if b == 0x04 then hex_colour else plain))

abbrev pub is_ascii_hexdigit : ℕ → Bool
is_ascii_hexdigit b = is_ascii_digit b || (leb b'a' b && leb b b'f' || leb b'A' b && leb b b'F')

-- What is left after at most so many bytes of a class.
abbrev pub skip : (ℕ → Bool) → ℕ → Text → Text
skip p zero s = s
skip p (suc n) [] = []
skip p (suc n) (b ∷ s) = let rest = skip p n s in if p b then rest else b ∷ s

-- What is left after a comma and a background colour, if a digit follows the comma.
abbrev pub background : (ℕ → Bool) → ℕ → Text → Text
background p max [] = []
background p max (b ∷ []) = b ∷ []
background p max (b ∷ c ∷ s) = if b == b',' && p c then skip p max (c ∷ s) else b ∷ c ∷ s

abbrev pub is_continuation : ℕ → Bool
is_continuation b = leb 128 b && ltb b 192

abbrev pub continuation : Text → Text
continuation [] = []
continuation (b ∷ s) = let rest = continuation s in if is_continuation b then b ∷ rest else []

abbrev pub after_continuation : Text → Text
after_continuation [] = []
after_continuation (b ∷ s) =
    let rest = after_continuation s in if is_continuation b then rest else b ∷ s

abbrev pub pushed : Kind → ℕ → Text → Text
pushed plain b s = b ∷ continuation s
pushed _ b s = []

abbrev pub left_after : Kind → Text → Text
left_after toggle s = s
left_after colour s = background is_ascii_digit 2 (skip is_ascii_digit 2 s)
left_after hex_colour s = background is_ascii_hexdigit 6 (skip is_ascii_hexdigit 6 s)
left_after plain s = after_continuation s

-- A round takes at least a byte.
unfoldable pub strip_loop : ℕ → Text → Text
strip_loop zero s = []
strip_loop (suc f) [] = []
strip_loop (suc f) (b ∷ s) = pushed (kind_of b) b s ++ strip_loop f (left_after (kind_of b) s)

unfoldable pub strip_irc_formatting : Text → Text
unfolding strip_loop
strip_irc_formatting text = strip_loop (length text) text

-- The prefix characters of a nick, and the nick.
abbrev pub split_nick_prefix : Text → Text × Text
split_nick_prefix [] = ([], [])
split_nick_prefix (c ∷ s) =
    let (prefix, nick) = split_nick_prefix s in
    if has_byte c (codes "~&@%+") then (c ∷ prefix, nick) else ([], c ∷ s)

abbrev pub mode_of : ℕ → ℕ
mode_of c =
    if c == b'~'
    then b'q'
    else (if c == b'&'
        then b'a'
        else (if c == b'@'
            then b'o'
            else (if c == b'%' then b'h' else (if c == b'+' then b'v' else c))))

abbrev pub prefix_to_mode : Text → Text
prefix_to_mode prefix = map mode_of prefix

abbrev pub modes_to_prefix : Text → Text → Text
modes_to_prefix modes [] = []
modes_to_prefix modes (c ∷ order) =
    let rest = modes_to_prefix modes order in if has_byte (mode_of c) modes then c ∷ rest else rest

abbrev pub is_channel : Text → Bool
is_channel [] = false
is_channel (c ∷ s) = c == b'#' || (c == b'&' || (c == b'+' || c == b'!'))
