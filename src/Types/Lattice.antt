-- ===== src/Types/Lattice.antt =====
-- The meet of inferred types is a semilattice on what the types say.
use autopiper.Prelude.{
  ℕ, ◌≡◌, refl, sym, ap, subst, and_true, Bool-cases, inl, inr, ◌∙◌, ◌↔◌, Bool, true, false, Option,
  none, some, if◌then◌else◌, bool_eq, arith,
}
use autopiper.Prelude.Int.{ℤ, ltb_ℤ, eq_ℤ, eq_ℤ_iff}
use autopiper.Types.{InferredType, agg_eq, meet}
use autopiper.Types.View.{
  View, Shape, top, at_least, exactly, bottom, meet_views, meet_sizes, shape_eq, view, view-meet,
}

agg_eq_iff : (a b : Option ℕ) → (agg_eq a b ≡ true) ↔ (a ≡ b)
agg_eq_iff a b = ground arith

bool_eq_iff : (a b : Bool) → (bool_eq a b ≡ true) ↔ (a ≡ b)
bool_eq_iff a b = ground arith

shape_eq_refl : (s : Shape) → shape_eq s s ≡ true
unfolding shape_eq
shape_eq_refl s = simp (
  (agg_eq_iff s.agg s.agg).1 refl,
  (eq_ℤ_iff s.width s.width).1 refl,
  (bool_eq_iff s.is_port s.is_port).1 refl,
  (bool_eq_iff s.is_chan s.is_chan).1 refl,
  (bool_eq_iff s.is_reg s.is_reg).1 refl,
  (bool_eq_iff s.is_array s.is_array).1 refl,
  (bool_eq_iff s.is_bypass s.is_bypass).1 refl,
)

shape_eq→eq : (s t : Shape) → shape_eq s t ≡ true → s ≡ t
unfolding shape_eq
shape_eq→eq s t h =
    let (h6, g) = and_true _ (bool_eq s.is_bypass t.is_bypass) h in
    let (h5, f) = and_true _ (bool_eq s.is_array t.is_array) h6 in
    let (h4, e) = and_true _ (bool_eq s.is_reg t.is_reg) h5 in
    let (h3, d) = and_true _ (bool_eq s.is_chan t.is_chan) h4 in
    let (h2, c) = and_true _ (bool_eq s.is_port t.is_port) h3 in
    let (a, b) = and_true _ (eq_ℤ s.width t.width) h2 in
    λ i. record {
      agg = (agg_eq_iff s.agg t.agg).0 a i;
      width = (eq_ℤ_iff s.width t.width).0 b i;
      is_port = (bool_eq_iff s.is_port t.is_port).0 c i;
      is_chan = (bool_eq_iff s.is_chan t.is_chan).0 d i;
      is_reg = (bool_eq_iff s.is_reg t.is_reg).0 e i;
      is_array = (bool_eq_iff s.is_array t.is_array).0 f i;
      is_bypass = (bool_eq_iff s.is_bypass t.is_bypass).0 g i;
    }

shape_eq_iff : (s t : Shape) → (shape_eq s t ≡ true) ↔ (s ≡ t)
shape_eq_iff s t = (shape_eq→eq s t, λ e. subst (λ u. shape_eq s u ≡ true) e (shape_eq_refl s))

meet_views_idem : (v : View) → meet_views v v ≡ v
unfolding meet_views meet_sizes
meet_views_idem top = refl
meet_views_idem (at_least n) = ground arith
meet_views_idem (exactly s none) = ground (arith, shape_eq_refl s)
meet_views_idem (exactly s (some n)) = ground (arith, shape_eq_refl s, eq_ℤ_iff n n)
meet_views_idem bottom = refl

meet_sizes_comm : (s : Shape) (m n : Option ℤ) → meet_sizes s m n ≡ meet_sizes s n m
unfolding meet_sizes
meet_sizes_comm s none none = refl
meet_sizes_comm s none (some n) = refl
meet_sizes_comm s (some m) none = refl
meet_sizes_comm s (some m) (some n) = ground (arith, eq_ℤ_iff m n, eq_ℤ_iff n m)

meet_views_comm : (v w : View) → meet_views v w ≡ meet_views w v
unfolding meet_views
meet_views_comm top w = ground arith
meet_views_comm (exactly s m) (exactly t n) =
    ground (arith, shape_eq_iff s t, shape_eq_iff t s, meet_sizes_comm s m n)
meet_views_comm (at_least m) (at_least n) = ground arith
meet_views_comm v w = ground arith

meet_sizes_assoc :
    (s : Shape) (m n o : Option ℤ)
    → meet_views (meet_sizes s m n) (exactly s o) ≡ meet_views (exactly s m) (meet_sizes s n o)
unfolding meet_views meet_sizes
meet_sizes_assoc s none none o = ground (arith, shape_eq_refl s)
meet_sizes_assoc s none (some n) none = ground (arith, shape_eq_refl s)
meet_sizes_assoc s none (some n) (some o) = ground (arith, shape_eq_refl s)
meet_sizes_assoc s (some m) none o = ground (arith, shape_eq_refl s)
meet_sizes_assoc s (some m) (some n) none = ground (arith, shape_eq_refl s)
meet_sizes_assoc s (some m) (some n) (some o) =
    ground (arith, shape_eq_refl s, eq_ℤ_iff m n, eq_ℤ_iff n o, eq_ℤ_iff m o)

-- Different shapes contradict one another, whatever the sizes.
meet_sizes_clash :
    (s t : Shape) (m n o : Option ℤ)
    → shape_eq s t ≡ false
    → (meet_views (meet_sizes s m n) (exactly t o) ≡ bottom)
      × (meet_views (exactly s o) (meet_sizes t m n) ≡ bottom)
unfolding meet_views meet_sizes
meet_sizes_clash s t none none o h = ground arith
meet_sizes_clash s t none (some n) o h = ground arith
meet_sizes_clash s t (some m) none o h = ground arith
meet_sizes_clash s t (some m) (some n) o h = ground arith

same_shape_assoc :
    (s : Shape) (m n o : Option ℤ)
    → meet_views (meet_views (exactly s m) (exactly s n)) (exactly s o)
      ≡ meet_views (exactly s m) (meet_views (exactly s n) (exactly s o))
unfolding meet_views
same_shape_assoc s m n o = simp (shape_eq_refl s) (meet_sizes_assoc s m n o)

-- Three resolved types, by whether their shapes agree.
exactly_assoc :
    (s t u : Shape) (m n o : Option ℤ)
    → meet_views (meet_views (exactly s m) (exactly t n)) (exactly u o)
      ≡ meet_views (exactly s m) (meet_views (exactly t n) (exactly u o))
unfolding meet_views
exactly_assoc s t u m n o = elim (Bool-cases (shape_eq s t)) [
  | inl e ↦ elim (Bool-cases (shape_eq t u)) [
    | inl d ↦
        subst
          (λ x.
            meet_views (meet_views (exactly s m) (exactly x n)) (exactly u o)
            ≡ meet_views (exactly s m) (meet_views (exactly x n) (exactly u o)))
          (shape_eq→eq s t e)
          (subst
            (λ y.
              meet_views (meet_views (exactly s m) (exactly s n)) (exactly y o)
              ≡ meet_views (exactly s m) (meet_views (exactly s n) (exactly y o)))
            (shape_eq→eq s t e ∙ shape_eq→eq t u d) (same_shape_assoc s m n o))
    | inr d ↦
        let f : shape_eq s u ≡ false =
          subst (λ x. shape_eq x u ≡ false) (sym (shape_eq→eq s t e)) d in
        simp (e, d) ((meet_sizes_clash s u m n o f).0)
  ]
  | inr e ↦ elim (Bool-cases (shape_eq t u)) [
    | inl d ↦ simp (e, d) (sym (meet_sizes_clash s t n o m e).1)
    | inr d ↦ simp (e, d)
  ]
]

meet_views_top : (v : View) → meet_views v top ≡ v
unfolding meet_views
meet_views_top top = refl
meet_views_top v = refl

meet_views_bottom : (v : View) → (meet_views v bottom ≡ bottom) × (meet_views bottom v ≡ bottom)
unfolding meet_views
meet_views_bottom top = (refl, refl)
meet_views_bottom v = (refl, refl)

-- A constant against two sizes of one shape.
narrow :
    (l : ℤ) (s : Shape) (m n : Option ℤ)
    → (meet_views (at_least l) (meet_sizes s m n)
        ≡ (if ltb_ℤ s.width l then bottom else meet_sizes s m n))
      × (meet_views (meet_sizes s m n) (at_least l)
          ≡ (if ltb_ℤ s.width l then bottom else meet_sizes s m n))
unfolding meet_views meet_sizes
narrow l s none none = ground arith
narrow l s none (some n) = ground arith
narrow l s (some m) none = ground arith
narrow l s (some m) (some n) = ground arith

shape_eq-width : (s t : Shape) → shape_eq s t ≡ true → s.width ≡ t.width
shape_eq-width s t h = ap (λ (x : Shape). x.width) (shape_eq→eq s t h)

meet_views_assoc : (u v w : View) → meet_views (meet_views u v) w ≡ meet_views u (meet_views v w)
unfolding meet_views
meet_views_assoc top v w = refl
meet_views_assoc u top w = ap (λ x. meet_views x w) (meet_views_top u)
meet_views_assoc u v top =
    meet_views_top (meet_views u v) ∙ sym (ap (meet_views u) (meet_views_top v))
meet_views_assoc bottom v w =
    ap (λ x. meet_views x w) (meet_views_bottom v).1
    ∙ (meet_views_bottom w).1
    ∙ sym (meet_views_bottom (meet_views v w)).1
meet_views_assoc u bottom w =
    ap (λ x. meet_views x w) (meet_views_bottom u).0
    ∙ (meet_views_bottom w).1
    ∙ sym (ap (meet_views u) (meet_views_bottom w).1 ∙ (meet_views_bottom u).0)
meet_views_assoc u v bottom =
    (meet_views_bottom (meet_views u v)).0
    ∙ sym (ap (meet_views u) (meet_views_bottom v).0 ∙ (meet_views_bottom u).0)
meet_views_assoc (at_least l) (at_least m) (at_least n) = ground arith
meet_views_assoc (at_least l) (at_least m) (exactly s n) = ground arith
meet_views_assoc (at_least l) (exactly s m) (at_least n) = ground arith
meet_views_assoc (exactly s l) (at_least m) (at_least n) = ground arith
meet_views_assoc (at_least l) (exactly s m) (exactly t n) =
    ground (arith, narrow l s m n, shape_eq-width s t, (meet_views_bottom (exactly t n)).1)
meet_views_assoc (exactly s l) (at_least m) (exactly t n) = ground (
  arith,
  shape_eq-width s t,
  meet_views_bottom (exactly s l),
  (meet_views_bottom (exactly t n)).1,
)
meet_views_assoc (exactly s l) (exactly t m) (at_least n) = ground (
  arith,
  narrow n s l m,
  shape_eq-width s t,
  meet_views_bottom (exactly s l),
  (meet_views_bottom (at_least n)).1,
)
meet_views_assoc (exactly s m) (exactly t n) (exactly u o) = exactly_assoc s t u m n o

-- The order of the arguments does not matter to what `Meet` says, for any two types.
pub meet_comm : (a b : InferredType) → view (meet a b) ≡ view (meet b a)
meet_comm a b = view-meet a b ∙ meet_views_comm (view a) (view b) ∙ sym (view-meet b a)

-- Grouping does not matter to what `Meet` says, for any three types.
pub meet_assoc : (a b c : InferredType) → view (meet (meet a b) c) ≡ view (meet a (meet b c))
meet_assoc a b c = simp view-meet (meet_views_assoc (view a) (view b) (view c))

-- The meet of a type with itself says what the type says.
pub meet_idem : (a : InferredType) → view (meet a a) ≡ view a
meet_idem a = view-meet a a ∙ meet_views_idem (view a)
