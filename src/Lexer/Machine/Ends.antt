-- ===== src/Lexer/Machine/Ends.antt =====
-- src/common/parser-utils.h: when the loop of `LexerImpl::ReadNext` ends.
use autopiper.Prelude.{
  ℕ, zero, suc, ◌+◌, ◌*◌, ◌<◌, ◌==◌, ◌≡◌, ◌≢◌, refl, ap, ◌⊎◌, inl, inr, Bool, true, false, not,
  List, [], ◌∷◌, Option, none, some, if◌then◌else◌, length, arith, Bool-cases, Option-cases,
}
use autopiper.Lexer.Stream.{Stream, read_char, newline}
use autopiper.Lexer.Token.{newline_token}
use autopiper.Lexer.Machine.{
  LexState, s_init, s_intlit, s_ident, s_quote, s_quote_backslash, s_comment, Lex, Turn, next,
  crash, advance, emit, finish_compound, init_char, on_char, on_eof, turn, is_init, have, goes_on,
  ended, out_of_fuel, loop, init_single, init_compound, second, compound, single, Compound,
  is_space, is_digit, is_ident_start, is_ident_char, is_int_char, append_char, end_int, end_ident,
  end_quote,
}

-- The characters that are not consumed.
unfoldable pub left_over : Stream → ℕ
left_over s = length s.rest + elim s.slot [ none ↦ 0 | some _ ↦ 1 ]

abbrev rank : LexState → ℕ
rank s_comment = 3
rank s_init = 2
rank _ = 1

-- Consuming a character lowers it, and so does a change of state that consumes none.
unfoldable pub measure : Lex → ℕ
unfolding left_over
measure l = 2 * left_over l.stream + rank l.state

-- In a string, a backslash before the end or before a character other than a backslash and a quote.
pub data Stuck (l : Lex) : Type 0 where
  at_end : l.state ≡ s_quote_backslash → l.stream.slot ≡ none → l.token ≡ none → Stuck l
  at_char :
      (c : ℕ)
      → l.state ≡ s_quote_backslash
      → l.stream.slot ≡ some c
      → c ≢ 92
      → c ≢ b'"'
      → l.token ≡ none
      → Stuck l

-- One turn gives a token or lowers the measure, by what the next state is.
abbrev Falls : ℕ → Turn → Type 0
Falls n crash = Unit
Falls n (next m) = (have m.token ≡ true) ⊎ (measure m < n)

left_over-read_char : (s : Stream) (c : ℕ) → s.slot ≡ some c → left_over (read_char s) < left_over s
unfolding left_over read_char
left_over-read_char s c h = ground arith

second-token : (l : Lex) (c : ℕ) (t : _) (ps : _) → have (second ps t c l).token ≡ true
unfolding second emit
second-token l c t [] = refl
second-token l c t ((d, u) ∷ r) = ground (arith, second-token l c t r)

finish_compound-Falls : (n : ℕ) (k : Compound) (l : Lex) → Falls n (finish_compound k l)
unfolding finish_compound
finish_compound-Falls n k l = elim (Option-cases l.stream.slot) [
  | inl e ↦ rw (e, finish_compound) tt
  | inr (c, e) ↦ rw (e, finish_compound) (inl (second-token l c k.alone k.pairs))
]

init_compound-Falls :
    (c : ℕ) (l : Lex) → l.stream.slot ≡ some c → Falls (measure l) (init_compound c l)
unfolding init_compound measure advance
init_compound-Falls c l h = elim (Option-cases (compound c)) [
  | inl e ↦ rw (e, init_compound) (inr (omega (arith, left_over-read_char l.stream c h)))
  | inr (k, e) ↦ rw (e, init_compound) (finish_compound-Falls (measure l) k (advance l))
]

init_single-Falls : (c : ℕ) (l : Lex) → l.stream.slot ≡ some c → Falls (measure l) (init_single c l)
unfolding init_single advance emit
init_single-Falls c l h = elim (Option-cases (single c)) [
  | inl e ↦ rw (e, init_single) (init_compound-Falls c l h)
  | inr (t, e) ↦ rw (e, init_single) (inl refl)
]

Falls-if : (n : ℕ) (b : Bool) (x y : Turn) → Falls n x → Falls n y → Falls n (if b then x else y)
Falls-if n true x y h k = h
Falls-if n false x y h k = k

-- The next state falls below.
falls : (n : ℕ) (m : Lex) → measure m < n → Falls n (next m)
falls n m h = inr h

-- The turns of `S_INIT` on a character; `l` has the position already.
init_char-Falls :
    (c : ℕ) (l : Lex)
    → l.stream.slot ≡ some c
    → l.state ≡ s_init
    → Falls (measure l) (init_char c l)
unfolding init_char measure advance emit
init_char-Falls c l h k =
    let less = left_over-read_char l.stream c h in
    let rank_eq = ap rank k in
    Falls-if (measure l) (c == b'#') (next (advance (record l { state = s_comment }))) _
      (falls (measure l) (advance (record l { state = s_comment })) (omega (arith, less, rank_eq)))
      (Falls-if (measure l) (c == newline) (next (advance (emit newline_token 0 [] l))) _ (inl refl)
        (Falls-if (measure l) (is_space c) (next (advance l)) _
          (falls (measure l) (advance l) (omega (arith, less)))
          (Falls-if (measure l) (is_digit c) (next (record l { state = s_intlit })) _
            (falls (measure l) (record l { state = s_intlit }) (omega (arith, rank_eq)))
            (Falls-if (measure l) (is_ident_start c) (next (record l { state = s_ident })) _
              (falls (measure l) (record l { state = s_ident }) (omega (arith, rank_eq)))
              (Falls-if (measure l) (c == b'"') (next (advance (record l { state = s_quote }))) _
                (falls (measure l) (advance (record l { state = s_quote }))
                  (omega (arith, less, rank_eq)))
                (init_single-Falls c l h))))))

-- A character of a literal or a name is consumed in the same state.
append-Falls :
    (c : ℕ) (l : Lex)
    → l.stream.slot ≡ some c
    → Falls (measure l) (next (advance (append_char c l)))
unfolding append_char measure advance
append-Falls c l h = let less = left_over-read_char l.stream c h in inr (omega (arith, less))

module _ (bignum_of : List ℕ → Option ℕ) where
  on_char-Falls :
      (s : LexState) (c : ℕ) (l : Lex)
      → l.stream.slot ≡ some c
      → l.state ≡ s
      → l.token ≡ none
      → Falls (measure l) (on_char bignum_of s c l) ⊎ Stuck l
  unfolding on_char measure advance emit append_char
  on_char-Falls s_init c l h k t =
      inl (init_char-Falls c (record l { line = l.stream.line; col = l.stream.col }) h k)
  on_char-Falls s_intlit c l h k t = inl (
      Falls-if (measure l) (is_int_char l.cur_token c) (next (advance (append_char c l)))
        (end_int bignum_of l) (append-Falls c l h) (inl refl))
  on_char-Falls s_ident c l h k t = inl (
      Falls-if (measure l) (is_ident_char c) (next (advance (append_char c l)))
        (end_ident bignum_of l) (append-Falls c l h) (inl refl))
  on_char-Falls s_quote c l h k t =
      let less = left_over-read_char l.stream c h in
      inl (
        Falls-if (measure l) (c == 92) (next (record (advance l) { state = s_quote_backslash })) _
          (falls (measure l) (record (advance l) { state = s_quote_backslash })
            (omega (arith, less, ap rank k)))
          (Falls-if (measure l) (not (c == b'"')) (next (advance (append_char c l)))
            (end_quote bignum_of l) (append-Falls c l h) (inl refl)))
  on_char-Falls s_quote_backslash c l h k t =
      let less = left_over-read_char l.stream c h in
      elim (Bool-cases (c == 92)) [
        | inl e ↦ inl (rw (e, on_char) (inr (omega (arith, less, ap rank k))))
        | inr e ↦ elim (Bool-cases (c == b'"')) [
          | inl f ↦ inl (rw (e, f, on_char) (inr (omega (arith, less, ap rank k))))
          | inr f ↦ inr (at_char c k h (ground arith) (ground arith) t)
        ]
      ]
  on_char-Falls s_comment c l h k t =
      let less = left_over-read_char l.stream c h in
      elim (Bool-cases (c == newline)) [
        | inl e ↦ inl (rw (e, on_char) (inr (omega (arith, less, ap rank k))))
        | inr e ↦ inl (rw (e, on_char) (inr (omega (arith, less, ap rank k))))
      ]

  on_eof-Falls :
      (s : LexState) (l : Lex)
      → l.stream.slot ≡ none
      → l.state ≡ s
      → l.token ≡ none
      → not (is_init s) ≡ true
      → Falls (measure l) (on_eof bignum_of s l) ⊎ Stuck l
  unfolding on_eof measure advance emit
  on_eof-Falls s_init l h k t g = cc
  on_eof-Falls s_intlit l h k t g = inl (inl refl)
  on_eof-Falls s_ident l h k t g = inl (inl refl)
  on_eof-Falls s_quote l h k t g = inl (inl refl)
  on_eof-Falls s_quote_backslash l h k t g = inr (at_end k h t)
  on_eof-Falls s_comment l h k t g = inl (inr (omega (arith, ap rank k)))

  turn-Falls : (l : Lex) → goes_on l ≡ true → Falls (measure l) (turn bignum_of l) ⊎ Stuck l
  unfolding turn goes_on
  turn-Falls l g = elim (Option-cases l.token) [
    | inl t ↦ elim (Option-cases l.stream.slot) [
      | inl h ↦ simp (h, turn) (on_eof-Falls l.state l h refl t (ground arith))
      | inr (c, h) ↦ simp (h, turn) (on_char-Falls l.state c l h refl t)
    ]
    | inr (t, e) ↦ absurd (ground arith)
  ]

  -- The states that the loop passes through.
  pub data Reach : Lex → Lex → Type 0 where
    here : {l : Lex} → Reach l l
    step : {l m n : Lex} → goes_on l ≡ true → turn bignum_of l ≡ next m → Reach m n → Reach l n

  -- A state from which the loop does not move on stays where it is.
  Stuck-turn : (l : Lex) → Stuck l → (goes_on l ≡ true) × (turn bignum_of l ≡ next l)
  unfolding goes_on turn on_char on_eof
  Stuck-turn l (at_end k h t) = (ground arith, ground arith)
  Stuck-turn l (at_char c k h a b t) = (ground arith, ground arith)

  Stuck-loop : (fuel : ℕ) (l : Lex) → Stuck l → loop bignum_of fuel l ≡ out_of_fuel
  unfolding loop
  Stuck-loop zero l s = refl
  Stuck-loop (suc fuel) l s = let (g, e) = Stuck-turn l s in simp (g, e, loop) (Stuck-loop fuel l s)

  -- If the loop of `ReadNext` passes through a state inside a string, behind a backslash, where
  -- neither a backslash nor a quote follows, then it does not end, whatever the fuel.
  pub loop_hangs :
      (l m : Lex) → Reach l m → Stuck m → (fuel : ℕ) → loop bignum_of fuel l ≡ out_of_fuel
  unfolding loop
  loop_hangs l m here s fuel = Stuck-loop fuel l s
  loop_hangs l m (step g e r) s zero = refl
  loop_hangs l m (step {m = k} g e r) s (suc fuel) = simp (g, e, loop) (loop_hangs k m r s fuel)

  measure_pos : (l : Lex) → 0 < measure l
  unfolding measure
  measure_pos l = ground arith

  token_ends :
      (fuel : ℕ) (m : Lex) → have m.token ≡ true → 0 < fuel → loop bignum_of fuel m ≡ ended m
  unfolding loop goes_on
  token_ends zero m h lt = absurd (omega arith)
  token_ends (suc fuel) m h lt = ground arith

  -- With more fuel than twice the characters left and a few turns, the loop of `ReadNext` either ends,
  -- with a token or at the end of the stream, or fails the assertion in `Peek`, or passes through a
  -- state inside a string, behind a backslash, where neither a backslash nor a quote follows.
  pub loop_ends :
      (fuel : ℕ) (l : Lex)
      → measure l < fuel
      → (loop bignum_of fuel l ≢ out_of_fuel) ⊎ ((m : Lex) × Reach l m × Stuck m)
  unfolding loop
  loop_ends zero l lt = absurd (omega arith)
  loop_ends (suc fuel) l lt = elim (Bool-cases (goes_on l)) [
    | inl g ↦ elim (turn-Falls l g) [
      | inl f ↦ by_turn g (turn bignum_of l) refl f (loop_ends fuel)
      | inr s ↦ inr (l, here, s)
    ]
    | inr g ↦ inl (λ e. cc (rw (g, loop) at e))
  ]
    where
      by_turn :
          goes_on l ≡ true
          → (t : Turn) → turn bignum_of l ≡ t
          → Falls (measure l) t
          → ((m : Lex)
              → measure m < fuel
              → (loop bignum_of fuel m ≢ out_of_fuel) ⊎ ((n : Lex) × Reach m n × Stuck n))
          → (loop bignum_of (suc fuel) l ≢ out_of_fuel) ⊎ ((n : Lex) × Reach l n × Stuck n)
      by_turn g crash e f ih = inl (λ q. cc (simp (g, e, loop) at q))
      by_turn g (next m) e (inl given) ih =
          let ends = token_ends fuel m given (omega (arith, measure_pos l)) in
          inl (λ q. cc (simp (g, e, loop) at q, ends))
      by_turn g (next m) e (inr less) ih = elim (ih m (omega arith)) [
        | inl fine ↦ inl (λ q. fine (simp (g, e, loop) at q))
        | inr (n, r, s) ↦ inr (n, step g e r, s)
      ]
