-- ===== src/Lexer/Machine.antt =====
-- src/common/parser-utils.h: `LexerImpl::ReadNext`, a state machine over the stream.
pub mod Ends
pub mod Quoting
use autopiper.Prelude.{
  ℕ, zero, suc, ◌+◌, ◌==◌, leb, Bool, true, false, not, ◌&&◌, ◌||◌, List, [], ◌∷◌, ◌++◌, Option,
  none, some, if◌then◌else◌, length,
}
use autopiper.Lexer.Stream.{Stream, read_char, newline}
use autopiper.Lexer.Token.{
  Token, TokenType, int_literal, ident, quoted_string, lparen, rparen, lbracket, rbracket, lbrace,
  rbrace, langle, rangle, bang, at_sign, dollar, percent, caret, ampersand, star, equals, plus,
  dash, pipe, slash, backslash, question, comma, dot, colon, semicolon, tilde, tick, backtick,
  double_equal, not_equal, less_equal, greater_equal, lsh, rsh, newline_token,
}

-- `LexState`.
pub data LexState : Type 0 where
  s_init s_intlit s_ident s_quote s_quote_backslash s_comment : LexState

-- The variables of `ReadNext`: `token` is set exactly if `have_peek_` is.
pub record Lex : Type 0 where
  pub stream : Stream
  pub state : LexState
  pub cur_token : List ℕ
  pub line : ℕ
  pub col : ℕ
  pub token : Option Token

-- One turn of the loop: the next state, or the failed assertion of `PeekableStream::Peek`.
pub data Turn : Type 0 where
  next : Lex → Turn
  crash : Turn

abbrev pub between : ℕ → ℕ → ℕ → Bool
between lo hi c = leb lo c && leb c hi

unfoldable pub is_space : ℕ → Bool
is_space c = c == 32 || between 9 13 c

unfoldable pub is_digit : ℕ → Bool
is_digit c = between b'0' b'9' c

unfoldable pub is_alpha : ℕ → Bool
is_alpha c = between b'a' b'z' c || between b'A' b'Z' c

-- `isalnum(c) || c == '_' || c == '!'`.
unfoldable pub is_ident_char : ℕ → Bool
unfolding is_alpha is_digit
is_ident_char c = is_alpha c || is_digit c || c == b'_' || c == b'!'

-- `isalpha(c) || c == '_'`.
unfoldable pub is_ident_start : ℕ → Bool
unfolding is_alpha
is_ident_start c = is_alpha c || c == b'_'

is_zero : List ℕ → Bool
is_zero (c ∷ []) = c == b'0'
is_zero _ = false

-- `StartsWith(s, "0x") || StartsWith(s, "0X")`.
is_hex : List ℕ → Bool
is_hex (c ∷ d ∷ r) = c == b'0' && (d == b'x' || d == b'X')
is_hex _ = false

-- `IsValidNextIntLitChar`.
unfoldable pub is_int_char : List ℕ → ℕ → Bool
unfolding is_zero is_hex is_digit
is_int_char cur c =
    is_zero cur && (c == b'x' || c == b'X')
    || is_hex cur && (between b'a' b'f' c || between b'A' b'F' c)
    || is_digit c

-- The table of single characters in `S_INIT`.
unfoldable pub single : ℕ → Option TokenType
single c =
    if c == b'%'
    then some percent
    else if c == b'('
    then some lparen
    else if c == b')'
    then some rparen
    else if c == b'['
    then some lbracket
    else if c == b']'
    then some rbracket
    else if c == b'{'
    then some lbrace
    else if c == b'}'
    then some rbrace
    else if c == b'@'
    then some at_sign
    else if c == b'$'
    then some dollar
    else if c == b'^'
    then some caret
    else if c == b'&'
    then some ampersand
    else if c == b'*'
    then some star
    else if c == b'+'
    then some plus
    else if c == b'-'
    then some dash
    else if c == b'|'
    then some pipe
    else if c == b'/'
    then some slash
    else if c == 92
    then some backslash
    else if c == b'?'
    then some question
    else if c == b','
    then some comma
    else if c == b'.'
    then some dot
    else if c == b':'
    then some colon
    else if c == b';'
    then some semicolon
    else if c == b'~'
    then some tilde
    else if c == 39
    then some tick
    else if c == b'`'
    then some backtick
    else none

-- The compound punctuation that begins with a character: the tokens for it with each second
-- character, and the token for it alone.
pub record Compound : Type 0 where
  pub pairs : List (ℕ × TokenType)
  pub alone : TokenType

unfoldable pub compound : ℕ → Option Compound
compound c =
    if c == b'='
    then some (record { pairs = (b'=', double_equal) ∷ []; alone = equals })
    else if c == b'!'
    then some (record { pairs = (b'=', not_equal) ∷ []; alone = bang })
    else if c == b'<'
    then some (record { pairs = (b'=', less_equal) ∷ (b'<', lsh) ∷ []; alone = langle })
    else if c == b'>'
    then some (record { pairs = (b'=', greater_equal) ∷ (b'>', rsh) ∷ []; alone = rangle })
    else none

unfoldable pub advance : Lex → Lex
advance l = record l { stream = read_char l.stream }

-- `Emit`.
unfoldable pub emit : TokenType → ℕ → List ℕ → Lex → Lex
emit t n s l = record l {
  token = some (record { type = t; int_value = n; s = s; line = l.line; col = l.col });
}

second : List (ℕ × TokenType) → TokenType → ℕ → Lex → Lex
second [] alone c l = emit alone 0 [] l
second ((d, t) ∷ r) alone c l = if c == d then emit t 0 [] (advance l) else second r alone c l

-- After the first character of compound punctuation: `c = stream_.Peek()` asserts that there is one.
unfoldable pub finish_compound : Compound → Lex → Turn
unfolding second
finish_compound k l = elim l.stream.slot [
  | none ↦ crash
  | some c ↦ next (second k.pairs k.alone c l)
]

-- The end of `S_INIT`: compound punctuation, or a character that is skipped.
init_compound : ℕ → Lex → Turn
init_compound c l = elim (compound c) [
  | some k ↦ finish_compound k (advance l)
  | none ↦ next (advance l)
]

init_single : ℕ → Lex → Turn
unfolding init_compound
init_single c l = elim (single c) [
  | some t ↦ next (advance (emit t 0 [] l))
  | none ↦ init_compound c l
]

-- `case S_INIT` on a character.
unfoldable pub init_char : ℕ → Lex → Turn
unfolding init_single
init_char c l =
    if c == b'#'
    then next (advance (record l { state = s_comment }))
    else if c == newline
    then next (advance (emit newline_token 0 [] l))
    else if is_space c
    then next (advance l)
    else if is_digit c
    then next (record l { state = s_intlit })
    else if is_ident_start c
    then next (record l { state = s_ident })
    else if c == b'"'
    then next (advance (record l { state = s_quote }))
    else init_single c l

append_char : ℕ → Lex → Lex
append_char c l = record l { cur_token = l.cur_token ++ c ∷ [] }

abbrev reset : Lex → Lex
reset l = record l { cur_token = []; state = s_init }

abbrev pub is_init : LexState → Bool
is_init s_init = true
is_init _ = false

abbrev pub have {ℓ} : {A : Type ℓ} → Option A → Bool
have none = false
have (some _) = true

-- `!have_peek_ && (stream_.Have() || state != S_INIT)`.
unfoldable pub goes_on : Lex → Bool
goes_on l = not (have l.token) && (have l.stream.slot || not (is_init l.state))

-- How the loop ends.
pub data Ended : Type 0 where
  ended : Lex → Ended
  crashed : Ended
  out_of_fuel : Ended

module _ (bignum_of : List ℕ → Option ℕ) where
  -- `ParseInt`: 0 if the conversion throws.
  unfoldable pub parse_int : List ℕ → ℕ
  parse_int s = elim (bignum_of s) [ none ↦ 0 | some n ↦ n ]

  end_int : Lex → Turn
  end_int l = next (reset (emit int_literal (parse_int l.cur_token) [] l))

  end_ident : Lex → Turn
  end_ident l = next (reset (emit ident 0 l.cur_token l))

  end_quote : Lex → Turn
  end_quote l = next (reset (emit quoted_string 0 l.cur_token (advance l)))

  -- The `switch` on a character.
  unfoldable pub on_char : LexState → ℕ → Lex → Turn
  unfolding end_int end_ident end_quote append_char
  on_char s_init c l = init_char c (record l { line = l.stream.line; col = l.stream.col })
  on_char s_intlit c l =
      if is_int_char l.cur_token c then next (advance (append_char c l)) else end_int l
  on_char s_ident c l = if is_ident_char c then next (advance (append_char c l)) else end_ident l
  on_char s_quote c l =
      if c == 92
      then next (record (advance l) { state = s_quote_backslash })
      else if not (c == b'"')
      then next (advance (append_char c l))
      else end_quote l
  on_char s_quote_backslash c l =
      if c == 92
      then next (append_char 92 (record (advance l) { state = s_quote }))
      else if c == b'"'
      then next (append_char b'"' (record (advance l) { state = s_quote }))
      else next l
  on_char s_comment c l =
      next (if c == newline then record (advance l) { state = s_init } else advance l)

  -- The `switch` at the end of the stream.
  unfoldable pub on_eof : LexState → Lex → Turn
  unfolding end_int end_ident end_quote
  on_eof s_init l = next (record l { line = l.stream.line; col = l.stream.col })
  on_eof s_intlit l = end_int l
  on_eof s_ident l = end_ident l
  on_eof s_quote l = end_quote l
  on_eof s_quote_backslash l = next l
  on_eof s_comment l = next (record l { state = s_init })

  -- The body of the loop of `ReadNext`.
  unfoldable pub turn : Lex → Turn
  turn l = elim l.stream.slot [ none ↦ on_eof l.state l | some c ↦ on_char l.state c l ]

  unfoldable pub loop : ℕ → Lex → Ended
  loop zero l = out_of_fuel
  loop (suc fuel) l = elim (goes_on l) [
    | false ↦ ended l
    | true ↦ elim (turn l) [ crash ↦ crashed | next m ↦ loop fuel m ]
  ]

abbrev is_newline : Option Token → Bool
is_newline none = false
is_newline (some t) = elim t.type [ newline_token ↦ true | _ ↦ false ]

-- The variables of `ReadNext` at its start.
abbrev pub start : Stream → Lex
start s = record { stream = s; state = s_init; cur_token = []; line = 0; col = 0; token = none }

-- `LexerImpl::ReadNext`, with fuel for each loop and for the newlines that are passed over: the token
-- is `token` of the result.
unfoldable pub read_next : (List ℕ → Option ℕ) → ℕ → ℕ → Bool → Stream → Ended
read_next bignum_of fuel zero ignore_newline s = out_of_fuel
read_next bignum_of fuel (suc n) ignore_newline s =
    let again = λ (r : Stream). read_next bignum_of fuel n ignore_newline r in
    if s.eof then ended (start s) else elim (loop bignum_of fuel (start s)) [
      | ended l ↦ elim (is_newline l.token && ignore_newline) [
        | true ↦ again l.stream
        | false ↦ ended l
      ]
      | crashed ↦ crashed
      | out_of_fuel ↦ out_of_fuel
    ]
