-- ===== src/Lexer/Examples.antt =====
-- src/common/parser-utils.h: the lexer on small inputs.
use autopiper.Prelude.{
  ℕ, ◌-◌, ◌+◌, ◌≡◌, ◌≢◌, refl, ◌⊎◌, List, [], ◌∷◌, ◌++◌, Option, none, some, arith, true, false,
}
use autopiper.Lexer.Stream.{read_char, open_stream, Reads, open_stream-Reads}
use autopiper.Lexer.Token.{
  Token, TokenType, ident, int_literal, quoted_string, less_equal, to_source,
}
use autopiper.Lexer.Machine.{
  Lex, s_quote_backslash, start, loop, Ended, ended, crashed, out_of_fuel, read_next, goes_on, turn,
  on_char, on_eof, init_char, is_space, advance, is_digit, is_ident_start, is_ident_char,
  is_int_char, emit, single, compound, finish_compound, parse_int,
}
use autopiper.Lexer.Machine.Ends.{
  Stuck, at_char, Reach, here, step, measure, left_over, loop_ends, loop_hangs,
}
use autopiper.Lexer.Machine.Quoting.{read_next-to_source}

-- A conversion of decimal digits, for the inputs below.
abbrev decimal : List ℕ → Option ℕ
decimal [] = none
decimal (c ∷ r) = some (c - 48)

abbrev digits : ℕ → List ℕ
digits n = (n + 48) ∷ []

-- The type and the words of the token that is read, if the loop ends.
abbrev read_type : Ended → Option (TokenType × List ℕ × ℕ)
read_type (ended l) = elim l.token [ none ↦ none | some t ↦ some (t.type, t.s, t.int_value) ]
read_type _ = none

abbrev read_text : List ℕ → Ended
read_text text = read_next decimal 50 5 true (open_stream text)

-- ` ab!1+`
reads_ident :
    read_type (read_text (32 ∷ 97 ∷ 98 ∷ 33 ∷ 49 ∷ 43 ∷ []))
    ≡ some (ident, 97 ∷ 98 ∷ 33 ∷ 49 ∷ [], 0)
unfolding read_next loop open_stream read_char goes_on turn on_char on_eof init_char is_space
    advance is_digit is_ident_start is_ident_char is_int_char emit single compound finish_compound
    parse_int
reads_ident = refl

-- A comment, its newline and `7`.
reads_number : read_type (read_text (35 ∷ 99 ∷ 10 ∷ 10 ∷ 55 ∷ [])) ≡ some (int_literal, [], 7)
unfolding read_next loop open_stream read_char goes_on turn on_char on_eof init_char is_space
    advance is_digit is_ident_start is_ident_char is_int_char emit single compound finish_compound
    parse_int
reads_number = refl

-- `<=`
reads_compound : read_type (read_text (60 ∷ 61 ∷ [])) ≡ some (less_equal, [], 0)
unfolding read_next loop open_stream read_char goes_on turn on_char on_eof init_char is_space
    advance is_digit is_ident_start is_ident_char is_int_char emit single compound finish_compound
    parse_int
reads_compound = refl

-- At the end of the text, `<` fails the assertion of `Peek`.
reads_less_at_end : read_text (60 ∷ []) ≡ crashed
unfolding read_next loop open_stream read_char goes_on turn on_char on_eof init_char is_space
    advance is_digit is_ident_start is_ident_char is_int_char emit single compound finish_compound
    parse_int
reads_less_at_end = refl

-- `"\n"`
abbrev escaped_n : Lex
escaped_n = start (open_stream (34 ∷ 92 ∷ 110 ∷ 34 ∷ []))

-- `loop` turns with fuel for the four characters.
loop_ends_example :
    (loop decimal 13 escaped_n ≢ out_of_fuel) ⊎ ((m : Lex) × Reach decimal escaped_n m × Stuck m)
unfolding measure left_over open_stream read_char
loop_ends_example = loop_ends decimal 13 escaped_n (omega arith)

-- `"\n"`, at the `n`.
abbrev behind_backslash : Lex
behind_backslash = record {
  stream = record { rest = 34 ∷ []; slot = some 110; eof = false; line = 1; col = 3 };
  state = s_quote_backslash;
  cur_token = [];
  line = 1;
  col = 1;
  token = none;
}

loop_hangs_example : loop decimal 1000 escaped_n ≡ out_of_fuel
unfolding read_next loop open_stream read_char goes_on turn on_char on_eof init_char is_space
    advance is_digit is_ident_start is_ident_char is_int_char emit single compound finish_compound
    parse_int
loop_hangs_example =
    loop_hangs decimal escaped_n behind_backslash (step refl refl (step refl refl here))
      (at_char 110 refl refl (λ e. absurd (omega (arith, e))) (λ e. absurd (omega (arith, e))) refl)
      1000

-- The string with the characters `a`, a quote and a backslash, before a `;`.
abbrev some_string : Token
some_string = record {
  type = quoted_string;
  int_value = 0;
  s = 97 ∷ 34 ∷ 92 ∷ [];
  line = 0;
  col = 0;
}

read_next-to_source_example :
    (m : Lex) × (read_next decimal 20 1 true (open_stream (to_source digits some_string ++ 59 ∷ []))
      ≡ ended m)
    × (m.token
        ≡ some (record {
          type = quoted_string;
          int_value = 0;
          s = 97 ∷ 34 ∷ 92 ∷ [];
          line = 1;
          col = 1;
        }))
    × Reads m.stream (59 ∷ [])
unfolding open_stream read_char to_source
read_next-to_source_example =
    read_next-to_source decimal digits some_string
      (open_stream (to_source digits some_string ++ 59 ∷ [])) (59 ∷ []) 20 0 true refl
      (
        (λ e. absurd (omega (arith, e))),
        ((λ e. absurd (omega (arith, e))), ((λ e. absurd (omega (arith, e))), tt)),
      )
      (open_stream-Reads (to_source digits some_string ++ 59 ∷ [])) (omega arith)
