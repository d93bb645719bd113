-- ===== src/Types.antt =====
-- src/frontend/type.h and type.cc: the inferred types and their meet.
-- A typedef is known by its address, a number; a null `agg` is `none`. An `int` is an integer. The
-- text of a conflict is kept as what it was printed from, since `strprintf` is `vsnprintf`.
pub mod View
pub mod Lattice
pub mod Examples
use autopiper.Prelude.{
  ℕ, ◌==◌, Bool, true, false, not, ◌&&◌, ◌||◌, List, [], ◌∷◌, ◌++◌, Option, none, some,
  if◌then◌else◌, bool_eq,
}
use autopiper.Prelude.Int.{ℤ, pos, negsuc, ltb_ℤ, eq_ℤ}

-- `InferredType::Type`.
pub data Kind : Type 0 where
  unknown resolved expanding_const conflict : Kind

-- One part of the text of a conflict of two resolved types, with the two values printed.
pub data Mismatch : Type 0 where
  agg_vs : Option ℕ → Option ℕ → Mismatch
  width_vs array_size_vs : ℤ → ℤ → Mismatch
  is_port_vs is_chan_vs is_reg_vs is_array_vs is_bypass_vs : Bool → Bool → Mismatch

-- `conflict_msg`: empty, "resolved type of width %d met a constant with minimum width %d", or
-- "Type conflict" and its parts.
pub data Message : Type 0 where
  empty : Message
  too_narrow : ℤ → ℤ → Message
  type_conflict : List Mismatch → Message

pub record InferredType : Type 0 where
  pub type : Kind
  pub agg : Option ℕ
  pub width : ℤ
  pub is_port : Bool
  pub is_chan : Bool
  pub is_reg : Bool
  pub is_array : Bool
  pub array_size : ℤ
  pub is_bypass : Bool
  pub conflict_msg : Message

-- `InferredType()`.
abbrev pub default_type : InferredType
default_type = record {
  type = unknown;
  agg = none;
  width = negsuc 0;
  is_port = false;
  is_chan = false;
  is_reg = false;
  is_array = false;
  array_size = negsuc 0;
  is_bypass = false;
  conflict_msg = empty;
}

-- `InferredType(int width_)`.
abbrev pub of_width : ℤ → InferredType
of_width w = record default_type { type = resolved; width = w }

abbrev pub agg_eq : Option ℕ → Option ℕ → Bool
agg_eq none none = true
agg_eq (some a) (some b) = a == b
agg_eq none (some b) = false
agg_eq (some a) none = false

-- The test of the last branch of `Meet`, on two resolved types; a size of -1 goes with every size.
unfoldable pub sizes_agree : ℤ → ℤ → Bool
sizes_agree m n = eq_ℤ m (negsuc 0) || eq_ℤ n (negsuc 0) || eq_ℤ m n

unfoldable pub compatible : InferredType → InferredType → Bool
unfolding sizes_agree
compatible a b =
    agg_eq a.agg b.agg
    && eq_ℤ a.width b.width
    && bool_eq a.is_port b.is_port
    && bool_eq a.is_chan b.is_chan
    && bool_eq a.is_reg b.is_reg
    && bool_eq a.is_array b.is_array
    && sizes_agree a.array_size b.array_size
    && bool_eq a.is_bypass b.is_bypass

when : Bool → Mismatch → List Mismatch
when true m = m ∷ []
when false m = []

-- The parts that the last branch of `Meet` appends to the text, in its order.
unfoldable pub mismatches : InferredType → InferredType → List Mismatch
unfolding when
mismatches a b =
    when (not (agg_eq a.agg b.agg)) (agg_vs a.agg b.agg)
    ++ (when (not (eq_ℤ a.width b.width)) (width_vs a.width b.width)
        ++ (when (not (bool_eq a.is_port b.is_port)) (is_port_vs a.is_port b.is_port)
            ++ (when (not (bool_eq a.is_chan b.is_chan)) (is_chan_vs a.is_chan b.is_chan)
                ++ (when (not (bool_eq a.is_reg b.is_reg)) (is_reg_vs a.is_reg b.is_reg)
                    ++ (when (not (bool_eq a.is_array b.is_array))
                          (is_array_vs a.is_array b.is_array)
                        ++ (when (not (eq_ℤ a.array_size b.array_size))
                              (array_size_vs a.array_size b.array_size)
                            ++ when (not (bool_eq a.is_bypass b.is_bypass))
                                (is_bypass_vs a.is_bypass b.is_bypass)))))))

abbrev pub conflict_of : Message → InferredType
conflict_of m = record default_type { type = conflict; conflict_msg = m }

-- The branch of one expanding constant and one resolved type.
unfoldable pub meet_const : InferredType → InferredType → InferredType
meet_const const_type resolved_type =
    if ltb_ℤ resolved_type.width const_type.width
    then conflict_of (too_narrow resolved_type.width const_type.width)
    else resolved_type

-- The branch of two expanding constants.
unfoldable pub meet_consts : InferredType → InferredType → InferredType
meet_consts a b = record a { width = if ltb_ℤ a.width b.width then b.width else a.width }

-- The branch of two resolved types.
unfoldable pub meet_resolved : InferredType → InferredType → InferredType
meet_resolved a b =
    if compatible a b
    then if eq_ℤ a.array_size (negsuc 0) then record a { array_size = b.array_size } else a
    else conflict_of (type_conflict (mismatches a b))

meet_by : Kind → Kind → InferredType → InferredType → InferredType
meet_by unknown k a b = b
meet_by k unknown a b = a
meet_by conflict k a b = conflict_of a.conflict_msg
meet_by k conflict a b = conflict_of b.conflict_msg
meet_by expanding_const expanding_const a b = meet_consts a b
meet_by expanding_const resolved a b = meet_const a b
meet_by resolved expanding_const a b = meet_const b a
meet_by resolved resolved a b = meet_resolved a b

-- `InferredType::Meet`.
unfoldable pub meet : InferredType → InferredType → InferredType
unfolding meet_by
meet a b = meet_by a.type b.type a b
