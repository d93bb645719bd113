-- ===== src/Lexer.antt =====
-- src/common/parser-utils.h: the character stream, the tokens and the lexer.
-- A character is its code, a number. `isspace`, `isdigit` and `isalpha` are those of the "C" locale.
-- The conversion of digits to a `mpz_int` is the Boost library's, and is the parameter `bignum_of`:
-- `none` where it throws.
pub mod Stream
pub mod Token
pub mod Machine
pub mod Examples
