-- ===== src/Lexer/Token.antt =====
-- src/common/parser-utils.h: `Token` and its source text.
use autopiper.Prelude.{ℕ, ◌==◌, Bool, true, false, List, [], ◌∷◌, ◌++◌, if◌then◌else◌}

-- `Token::Type`.
pub data TokenType : Type 0 where
  int_literal ident quoted_string lparen rparen lbracket rbracket lbrace rbrace : TokenType
  langle rangle bang at_sign hash dollar percent caret ampersand star equals plus dash : TokenType
  pipe slash backslash question comma dot colon semicolon tilde tick backtick : TokenType
  double_equal not_equal less_equal greater_equal lsh rsh newline_token eof_token : TokenType
  lexer_error : TokenType

pub record Token : Type 0 where
  pub type : TokenType
  pub int_value : ℕ
  pub s : List ℕ
  pub line : ℕ
  pub col : ℕ

-- `Token::QuoteString`, on each character.
unfoldable pub quote_char : ℕ → List ℕ
quote_char c =
    if c == b'"'
    then 92 ∷ b'"' ∷ []
    else if c == 92
    then 92 ∷ 92 ∷ []
    else if c == 10
    then 92 ∷ b'n' ∷ []
    else c ∷ []

-- `Token::QuoteString`.
unfoldable pub quote_string : List ℕ → List ℕ
quote_string [] = []
quote_string (c ∷ r) = quote_char c ++ quote_string r

-- `Token::ToSource` of the types whose text is fixed.
unfoldable pub punctuation : TokenType → List ℕ
punctuation lparen = b'(' ∷ []
punctuation rparen = b')' ∷ []
punctuation lbracket = b'[' ∷ []
punctuation rbracket = b']' ∷ []
punctuation lbrace = b'{' ∷ []
punctuation rbrace = b'}' ∷ []
punctuation langle = b'<' ∷ []
punctuation rangle = b'>' ∷ []
punctuation bang = b'!' ∷ []
punctuation at_sign = b'@' ∷ []
punctuation hash = b'#' ∷ []
punctuation dollar = b'$' ∷ []
punctuation percent = b'%' ∷ []
punctuation caret = b'^' ∷ []
punctuation ampersand = b'&' ∷ []
punctuation star = b'*' ∷ []
punctuation equals = b'=' ∷ []
punctuation plus = b'+' ∷ []
punctuation dash = b'-' ∷ []
punctuation pipe = b'|' ∷ []
punctuation slash = b'/' ∷ []
punctuation backslash = 92 ∷ []
punctuation question = b'?' ∷ []
punctuation comma = b',' ∷ []
punctuation dot = b'.' ∷ []
punctuation colon = b':' ∷ []
punctuation semicolon = b';' ∷ []
punctuation tilde = b'~' ∷ []
punctuation tick = 39 ∷ []
punctuation backtick = b'`' ∷ []
punctuation double_equal = b'=' ∷ b'=' ∷ []
punctuation not_equal = b'!' ∷ b'=' ∷ []
punctuation less_equal = b'<' ∷ b'=' ∷ []
punctuation greater_equal = b'>' ∷ b'=' ∷ []
punctuation lsh = b'<' ∷ b'<' ∷ []
punctuation rsh = b'>' ∷ b'>' ∷ []
punctuation newline_token = 10 ∷ []
punctuation lexer_error =
    10 ∷ b'(' ∷ b'L' ∷ b'E' ∷ b'X' ∷ b'E' ∷ b'R' ∷ b' ' ∷ b'E' ∷ b'R' ∷ b'R' ∷ b'O' ∷ b'R' ∷ b')'
    ∷ 10 ∷ []
punctuation _ = []

-- `Token::ToSource`; the digits of a number are printed by `digits_of`, the Boost library's.
unfoldable pub to_source : (ℕ → List ℕ) → Token → List ℕ
to_source digits_of t = elim t.type [
  | ident ↦ t.s
  | int_literal ↦ digits_of t.int_value
  | quoted_string ↦ b'"' ∷ (quote_string t.s ++ b'"' ∷ [])
  | other ↦ punctuation other
]

-- `Token::SourceAddNewline`.
unfoldable pub source_add_newline : TokenType → Bool
source_add_newline lbrace = true
source_add_newline rbrace = true
source_add_newline semicolon = true
source_add_newline _ = false

-- `TokenPrinter::PrintToken`: what is written.
unfoldable pub print_token : (ℕ → List ℕ) → Token → List ℕ
print_token digits_of t =
    to_source digits_of t ++ (if source_add_newline t.type then 10 else b' ') ∷ []
