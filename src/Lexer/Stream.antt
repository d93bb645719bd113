-- ===== src/Lexer/Stream.antt =====
-- src/common/parser-utils.h: `PeekableStream`.
use autopiper.Prelude.{
  ◌≡◌, refl, ℕ, ◌+◌, ◌==◌, Bool, true, false, List, [], ◌∷◌, Option, none, some, if◌then◌else◌,
}

-- The characters that the `istream` has left, the character in the peek slot, and the position.
pub record Stream : Type 0 where
  pub rest : List ℕ
  pub slot : Option ℕ
  pub eof : Bool
  pub line : ℕ
  pub col : ℕ

abbrev pub newline : ℕ
newline = 10

abbrev carriage_return : ℕ
carriage_return = 13

-- `line_` and `col_` after a character.
next_line : ℕ → ℕ → ℕ
next_line c line = if c == newline then line + 1 else line

next_col : ℕ → ℕ → ℕ
next_col c col = if c == newline then 0 else if c == carriage_return then 0 else col + 1

read_by : List ℕ → Stream → Stream
unfolding next_line next_col
read_by [] s = record s { slot = none; eof = true }
read_by (c ∷ r) s = record {
  rest = r;
  slot = some c;
  eof = false;
  line = next_line c s.line;
  col = next_col c s.col;
}

-- `PeekableStream::ReadNext`; its result is `!eof`.
unfoldable pub read_char : Stream → Stream
unfolding read_by
read_char s = if s.eof then record s { slot = none } else read_by s.rest s

-- The constructor reads the first character.
unfoldable pub open_stream : List ℕ → Stream
open_stream text = read_char (record { rest = text; slot = none; eof = false; line = 1; col = 0 })

-- The characters that are not consumed yet, the peek slot's included.
abbrev pub pending : Stream → List ℕ
pending s = elim s.slot [ none ↦ s.rest | some c ↦ c ∷ s.rest ]

-- The stream has a text before it.
abbrev pub Reads : Stream → List ℕ → Type 0
Reads s [] = s.slot ≡ none
Reads s (c ∷ r) = (s.eof ≡ false) × (s.slot ≡ some c) × (s.rest ≡ r)

read_by-Reads : (r : List ℕ) (s : Stream) → Reads (read_by r s) r
unfolding read_by
read_by-Reads [] s = refl
read_by-Reads (c ∷ r) s = (refl, refl, refl)

-- Reading takes one character.
pub read_char-Reads : (c : ℕ) (r : List ℕ) (s : Stream) → Reads s (c ∷ r) → Reads (read_char s) r
unfolding read_char
read_char-Reads c r s (e, h, k) = rw (e, read_char, k) (read_by-Reads r _)

pub open_stream-Reads : (text : List ℕ) → Reads (open_stream text) text
unfolding open_stream read_char
open_stream-Reads text = read_by-Reads text _
