-- ===== src/Types/View.antt =====
-- What a type says, and the meet of what two types say: the specification of `Meet`.
use autopiper.Prelude.{ℕ, ◌≡◌, refl, Bool, ◌&&◌, Option, none, some, if◌then◌else◌, bool_eq, arith}
use autopiper.Prelude.Int.{ℤ, negsuc, ltb_ℤ, eq_ℤ, eq_ℤ_iff}
use autopiper.Types.{
  Kind, unknown, resolved, expanding_const, conflict, InferredType, agg_eq, meet, meet_by,
  meet_const, meet_consts, meet_resolved, compatible, sizes_agree,
}

-- All that a resolved type says but its array size.
pub record Shape : Type 0 where
  pub agg : Option ℕ
  pub width : ℤ
  pub is_port : Bool
  pub is_chan : Bool
  pub is_reg : Bool
  pub is_array : Bool
  pub is_bypass : Bool

-- Nothing is known, a constant that wants a width, a type (its array size perhaps not known), or a
-- contradiction.
pub data View : Type 0 where
  top : View
  at_least : ℤ → View
  exactly : Shape → Option ℤ → View
  bottom : View

abbrev size_of : ℤ → Option ℤ
size_of n = if eq_ℤ n (negsuc 0) then none else some n

abbrev shape_of : InferredType → Shape
shape_of t = record {
  agg = t.agg;
  width = t.width;
  is_port = t.is_port;
  is_chan = t.is_chan;
  is_reg = t.is_reg;
  is_array = t.is_array;
  is_bypass = t.is_bypass;
}

view_by : Kind → InferredType → View
view_by unknown t = top
view_by expanding_const t = at_least t.width
view_by resolved t = exactly (shape_of t) (size_of t.array_size)
view_by conflict t = bottom

unfoldable pub view : InferredType → View
unfolding view_by
view t = view_by t.type t

unfoldable pub shape_eq : Shape → Shape → Bool
shape_eq a b =
    agg_eq a.agg b.agg
    && eq_ℤ a.width b.width
    && bool_eq a.is_port b.is_port
    && bool_eq a.is_chan b.is_chan
    && bool_eq a.is_reg b.is_reg
    && bool_eq a.is_array b.is_array
    && bool_eq a.is_bypass b.is_bypass

-- Two array sizes, either perhaps not known.
unfoldable pub meet_sizes : Shape → Option ℤ → Option ℤ → View
meet_sizes s none n = exactly s n
meet_sizes s (some m) none = exactly s (some m)
meet_sizes s (some m) (some n) = if eq_ℤ m n then exactly s (some m) else bottom

unfoldable pub meet_views : View → View → View
meet_views top w = w
meet_views v top = v
meet_views bottom w = bottom
meet_views v bottom = bottom
meet_views (at_least m) (at_least n) = at_least (if ltb_ℤ m n then n else m)
meet_views (at_least m) (exactly s n) = if ltb_ℤ s.width m then bottom else exactly s n
meet_views (exactly s n) (at_least m) = if ltb_ℤ s.width m then bottom else exactly s n
meet_views (exactly s m) (exactly t n) = if shape_eq s t then meet_sizes s m n else bottom

all_true : Bool → Bool → Bool → Bool → Bool → Bool → Bool → Bool → Bool
all_true a b c d e f s g = a && b && c && d && e && f && s && g

reorder :
    (a b c d e f s g : Bool) → all_true a b c d e f s g ≡ ((a && b && c && d && e && f && g) && s)
unfolding all_true
reorder a b c d e f s g = ground arith

compatible-eq :
    (a b : InferredType)
    → compatible a b ≡ (shape_eq (shape_of a) (shape_of b) && sizes_agree a.array_size b.array_size)
unfolding compatible shape_eq sizes_agree all_true
compatible-eq a b =
    reorder (agg_eq a.agg b.agg) (eq_ℤ a.width b.width) (bool_eq a.is_port b.is_port)
      (bool_eq a.is_chan b.is_chan) (bool_eq a.is_reg b.is_reg) (bool_eq a.is_array b.is_array)
      (sizes_agree a.array_size b.array_size) (bool_eq a.is_bypass b.is_bypass)

meet_sizes-size_of :
    (s : Shape) (m n : ℤ)
    → meet_sizes s (size_of m) (size_of n) ≡ (
        if sizes_agree m n
        then exactly s (size_of (if eq_ℤ m (negsuc 0) then n else m))
        else bottom)
unfolding meet_sizes sizes_agree
meet_sizes-size_of s m n = ground (arith, eq_ℤ_iff m n)

view-meet_resolved :
    (a b : InferredType)
    → a.type ≡ resolved
    → view (meet_resolved a b) ≡ (
        if shape_eq (shape_of a) (shape_of b)
        then meet_sizes (shape_of a) (size_of a.array_size) (size_of b.array_size)
        else bottom)
unfolding view meet_resolved
view-meet_resolved a b h =
    ground (arith, compatible-eq a b, meet_sizes-size_of (shape_of a) a.array_size b.array_size)

view-meet_by :
    (a b : InferredType) (k l : Kind)
    → a.type ≡ k
    → b.type ≡ l
    → view (meet_by k l a b) ≡ meet_views (view_by k a) (view_by l b)
unfolding meet_by meet_views view meet_const meet_consts
view-meet_by a b unknown l h g = ground arith
view-meet_by a b resolved resolved h g = view-meet_resolved a b h
view-meet_by a b k l h g = ground arith

-- What `Meet` gives for any two types says the meet of what they say: conflicts, constants that want a
-- width, and array sizes that are not known included.
pub view-meet : (a b : InferredType) → view (meet a b) ≡ meet_views (view a) (view b)
unfolding meet view
view-meet a b = view-meet_by a b a.type b.type refl refl
