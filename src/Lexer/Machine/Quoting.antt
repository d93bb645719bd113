-- ===== src/Lexer/Machine/Quoting.antt =====
-- src/common/parser-utils.h: `LexerImpl::ReadNext` on the text of `Token::QuoteString`.
use autopiper.Prelude.{
  ℕ, zero, suc, ◌+◌, ◌*◌, ◌<◌, ◌==◌, ◌≡◌, ◌≢◌, refl, sym, ◌⊎◌, inl, inr, ◌∙◌, ap, subst, Bool, true,
  false, List, [], ◌∷◌, ◌++◌, Option, none, some, length, arith, Bool-cases, All,
}
use mathlib.Core.List.{append_assoc, append-nil}
use autopiper.Lexer.Stream.{Stream, read_char, newline, Reads, read_char-Reads}
use autopiper.Lexer.Token.{Token, to_source, quoted_string, quote_char, quote_string}
use autopiper.Lexer.Machine.{
  LexState, s_init, s_quote, s_quote_backslash, Lex, next, start, advance, append_char, emit,
  on_char, on_eof, init_char, is_space, is_digit, is_ident_start, turn, goes_on, ended, loop,
  read_next, end_quote, reset,
}

-- A string that is open: its first characters, the text before the stream, and its position.
record Open (l : Lex) (done text : List ℕ) (line col : ℕ) : Type 0 where
  state_eq : l.state ≡ s_quote
  token_eq : l.token ≡ none
  done_eq : l.cur_token ≡ done
  line_eq : l.line ≡ line
  col_eq : l.col ≡ col
  text_eq : Reads l.stream text

module _ (bignum_of : List ℕ → Option ℕ) where
  -- The loop gives a string's token, and stops behind the string.
  abbrev Gives : ℕ → Lex → List ℕ → List ℕ → ℕ → ℕ → Type 0
  Gives fuel l s rest line col =
      (m : Lex) × (loop bignum_of fuel l ≡ ended m)
      × (m.token
          ≡ some (record { type = quoted_string; int_value = 0; s = s; line = line; col = col }))
      × Reads m.stream rest

  loop-next :
      (fuel : ℕ) (l m : Lex)
      → goes_on l ≡ true
      → turn bignum_of l ≡ next m
      → loop bignum_of (suc fuel) l ≡ loop bignum_of fuel m
  unfolding loop
  loop-next fuel l m g e = rw (g, e, loop) refl

  turn-on_char :
      (l : Lex) (c : ℕ) (s : LexState)
      → l.stream.slot ≡ some c
      → l.state ≡ s
      → turn bignum_of l ≡ on_char bignum_of s c l
  unfolding turn
  turn-on_char l c s h k =
      ap
        (λ (o : Option ℕ). elim o [
          | none ↦ on_eof bignum_of l.state l
          | some c ↦ on_char bignum_of l.state c l
        ])
        h
      ∙ ap (λ s. on_char bignum_of s c l) k

  abbrev escaped : ℕ → Lex → Lex
  escaped c l = append_char c (record (advance l) { state = s_quote })

  -- On a backslash in a string, and behind it.
  escape-char :
      (l : Lex) (c : ℕ)
      → ((c == 92) ≡ true) ⊎ ((c == b'"') ≡ true)
      → on_char bignum_of s_quote_backslash c l ≡ next (escaped c l)
  unfolding on_char append_char advance
  escape-char l c (inl e) = ground arith
  escape-char l c (inr e) = ground arith

  plain :
      (l : Lex) (c : ℕ) (done r : List ℕ) (line col : ℕ)
      → (c == 92) ≡ false
      → (c == b'"') ≡ false
      → Open l done (c ∷ r) line col
      → (goes_on l ≡ true)
        × (turn bignum_of l ≡ next (advance (append_char c l)))
        × Open (advance (append_char c l)) (done ++ c ∷ []) r line col
  unfolding goes_on turn on_char advance append_char
  plain l c done r line col e f o =
      let (a, b, d) = o.text_eq in
      (
        rw (o.token_eq, b) refl,
        turn-on_char l c s_quote b o.state_eq ∙ rw (e, f, on_char) refl,
        record {
          state_eq = o.state_eq;
          token_eq = o.token_eq;
          done_eq = rw (o.done_eq) refl;
          line_eq = o.line_eq;
          col_eq = o.col_eq;
          text_eq = read_char-Reads c r l.stream o.text_eq;
        },
      )

  escape :
      (l : Lex) (c : ℕ) (done r : List ℕ) (line col : ℕ)
      → (c == 92) ≡ true ⊎ (c == b'"') ≡ true
      → Open l done (92 ∷ c ∷ r) line col
      → (goes_on l ≡ true)
        × (turn bignum_of l ≡ next (record (advance l) { state = s_quote_backslash }))
        × (goes_on (record (advance l) { state = s_quote_backslash }) ≡ true)
        × (turn bignum_of (record (advance l) { state = s_quote_backslash })
            ≡ next (escaped c (record (advance l) { state = s_quote_backslash })))
        × Open
            (escaped c (record (advance l) { state = s_quote_backslash }))
            (done ++ c ∷ [])
            r
            line
            col
  unfolding goes_on turn on_char advance append_char
  escape l c done r line col e o =
      let (a, b, d) = o.text_eq in
      let again = read_char-Reads 92 (c ∷ r) l.stream o.text_eq in
      let (a', b', d') = again in
      (
        rw (o.token_eq, b) refl,
        turn-on_char l 92 s_quote b o.state_eq,
        rw (o.token_eq, b') refl,
        turn-on_char _ c s_quote_backslash b' refl ∙ escape-char _ c e,
        record {
          state_eq = refl;
          token_eq = o.token_eq;
          done_eq = rw (o.done_eq) refl;
          line_eq = o.line_eq;
          col_eq = o.col_eq;
          text_eq = read_char-Reads c r (read_char l.stream) again;
        },
      )

  closes :
      (fuel : ℕ) (l : Lex) (done r : List ℕ) (line col : ℕ)
      → Open l done (b'"' ∷ r) line col
      → Gives (suc (suc fuel)) l done r line col
  unfolding goes_on turn on_char advance append_char end_quote emit loop
  closes fuel l done r line col o =
      let (a, b, d) = o.text_eq in
      (
        reset (emit quoted_string 0 l.cur_token (advance l)),
        rw (o.token_eq, b, o.state_eq) refl,
        rw (o.done_eq, o.line_eq, o.col_eq) refl,
        read_char-Reads b'"' r l.stream o.text_eq,
      )

  -- Two turns behind each other.
  more :
      (fuel : ℕ) (l m : Lex) (s rest : List ℕ) (line col : ℕ)
      → goes_on l ≡ true
      → turn bignum_of l ≡ next m
      → Gives fuel m s rest line col
      → Gives (suc fuel) l s rest line col
  more fuel l m s rest line col g e (n, p, q, r) = (n, loop-next fuel l m g e ∙ p, q, r)

  longer :
      (fuel : ℕ) (l : Lex) (done s rest : List ℕ) (c line col : ℕ)
      → Gives fuel l ((done ++ c ∷ []) ++ s) rest line col
      → Gives fuel l (done ++ c ∷ s) rest line col
  longer fuel l done s rest c line col (m, p, q, r) = (
    m,
    p,
    subst
        (λ x.
          m.token
          ≡ some (record { type = quoted_string; int_value = 0; s = x; line = line; col = col }))
        (append_assoc done (c ∷ []) s) q,
    r,
  )

  -- What `QuoteString` prints for a character.
  quoted-escape :
      (c : ℕ) (s t : List ℕ)
      → ((c == 92) ≡ true) ⊎ ((c == b'"') ≡ true)
      → quote_string (c ∷ s) ++ t ≡ 92 ∷ c ∷ (quote_string s ++ t)
  unfolding quote_string quote_char
  quoted-escape c s t (inl e) = ground arith
  quoted-escape c s t (inr e) = ground arith

  quoted-plain :
      (c : ℕ) (s t : List ℕ)
      → (c == 92) ≡ false
      → (c == b'"') ≡ false
      → c ≢ newline
      → quote_string (c ∷ s) ++ t ≡ c ∷ (quote_string s ++ t)
  unfolding quote_string quote_char
  quoted-plain c s t e f n = ground arith

  escapes :
      (c : ℕ)
      → (((c == 92) ≡ true) ⊎ ((c == b'"') ≡ true)) ⊎ (((c == 92) ≡ false) × ((c == b'"') ≡ false))
  escapes c = elim (Bool-cases (c == 92)) [
    | inl e ↦ inl (inl e)
    | inr e ↦ elim (Bool-cases (c == b'"')) [ inl f ↦ inl (inr f) | inr f ↦ inr (e, f) ]
  ]

  -- A string's text, replaced by an equal one.
  abbrev Retext : Lex → List ℕ → ℕ → ℕ → List ℕ → Type 0
  Retext l done line col text = Open l done text line col

  -- In a string, the loop reads the rest of what `QuoteString` prints and the quote behind it.
  open_string :
      (s : List ℕ) (fuel : ℕ) (l : Lex) (done rest : List ℕ) (line col : ℕ)
      → All (λ c. c ≢ newline) s
      → 2 * length s + 1 < fuel
      → Open l done (quote_string s ++ b'"' ∷ rest) line col
      → Gives fuel l (done ++ s) rest line col
  unfolding quote_string quote_char
  open_string s zero l done rest line col h lt o = absurd (omega arith)
  open_string s (suc zero) l done rest line col h lt o = absurd (omega arith)
  open_string [] (suc (suc fuel)) l done rest line col h lt o =
      subst (λ x. Gives (suc (suc fuel)) l x rest line col) (sym (append-nil done))
        (closes fuel l done rest line col o)
  open_string (c ∷ s) (suc (suc fuel)) l done rest line col h lt o = elim (escapes c) [
    | inl e ↦
        let (g, p, g', p', k) =
          escape l c done _ line col e (subst (Retext l done line col) (quoted-escape c s _ e) o) in
        more (suc fuel) l _ _ rest line col g p (
          more fuel _ _ _ rest line col g' p' (
            longer fuel _ done s rest c line col
              (open_string s fuel _ _ rest line col h.1 (omega (arith, lt)) k)))
    | inr (e, f) ↦
        let (g, p, k) =
          plain l c done _ line col e f
            (subst (Retext l done line col) (quoted-plain c s _ e f h.0) o) in
        more (suc fuel) l _ _ rest line col g p (
          longer (suc fuel) _ done s rest c line col
            (open_string s (suc fuel) _ _ rest line col h.1 (omega (arith, lt)) k))
  ]

  -- The turn on a string's first quote.
  opens :
      (st : Stream) (text : List ℕ)
      → Reads st (b'"' ∷ text)
      → (goes_on (start st) ≡ true)
        × (m : Lex) × (turn bignum_of (start st) ≡ next m)
        × Open m [] text st.line st.col
  unfolding goes_on turn on_char init_char advance is_space is_digit is_ident_start
  opens st text o = (
    rw (o.1) refl,
    _,
    turn-on_char (start st) b'"' s_init o.1 refl,
    record {
      state_eq = refl;
      token_eq = refl;
      done_eq = refl;
      line_eq = refl;
      col_eq = refl;
      text_eq = read_char-Reads b'"' text st o;
    },
  )

quoted_source :
    (digits_of : ℕ → List ℕ) (t : Token) (rest : List ℕ)
    → t.type ≡ quoted_string
    → to_source digits_of t ++ rest ≡ b'"' ∷ (quote_string t.s ++ b'"' ∷ rest)
unfolding to_source
quoted_source digits_of t rest q =
    rw (q, to_source) (ap (λ x. b'"' ∷ x) (append_assoc (quote_string t.s) (b'"' ∷ []) rest))

-- `ReadNext`, on what `ToSource` prints for a quoted string without newlines and any text behind it,
-- gives the token of that string with the stream's position, and leaves the text behind it. The fuel
-- is more than twice the length of the string and two.
pub read_next-to_source :
    (bignum_of : List ℕ → Option ℕ) (digits_of : ℕ → List ℕ) (t : Token) (st : Stream)
    (rest : List ℕ) (fuel n : ℕ) (ignore_newline : Bool)
    → t.type ≡ quoted_string
    → All (λ c. c ≢ newline) t.s
    → Reads st (to_source digits_of t ++ rest)
    → 2 * length t.s + 2 < fuel
    → (m : Lex) × (read_next bignum_of fuel (suc n) ignore_newline st ≡ ended m)
      × (m.token
          ≡ some (record {
            type = quoted_string;
            int_value = 0;
            s = t.s;
            line = st.line;
            col = st.col;
          }))
      × Reads m.stream rest
unfolding read_next
read_next-to_source bignum_of digits_of t st rest zero n ignore_newline q h o lt =
    absurd (omega arith)
read_next-to_source bignum_of digits_of t st rest (suc fuel) n ignore_newline q h o lt =
    let o' = subst (Reads st) (quoted_source digits_of t rest q) o in
    let (g, k, p, opened) = opens bignum_of st (quote_string t.s ++ b'"' ∷ rest) o' in
    let (m, r, token, reads) =
      more bignum_of fuel (start st) k t.s rest st.line st.col g p
        (open_string bignum_of t.s fuel k [] rest st.line st.col h (omega (arith, lt)) opened) in
    (m, rw (r, token, o'.0, read_next) refl, token, reads)
