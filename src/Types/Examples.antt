-- ===== src/Types/Examples.antt =====
-- src/frontend/type.cc: runs of `Meet`, and the theorems at concrete inputs.
use autopiper.Prelude.{◌≡◌, refl, true}
use autopiper.Prelude.Int.{pos}
use autopiper.Types.{
  InferredType, expanding_const, resolved, default_type, of_width, meet, meet_const, conflict_of,
  too_narrow,
}
use autopiper.Types.View.{view, view-meet, meet_views}
use autopiper.Types.Lattice.{meet_comm, meet_assoc, meet_idem}

-- A constant that wants five bits.
abbrev five_bits : InferredType
five_bits = record default_type { type = expanding_const; width = pos 5 }

abbrev table : InferredType
table = record default_type { type = resolved; width = pos 8; is_array = true; array_size = pos 4 }

meet_too_narrow : meet five_bits (of_width (pos 3)) ≡ conflict_of (too_narrow (pos 3) (pos 5))
unfolding meet meet_const
meet_too_narrow = refl

view-meet_example : view (meet five_bits table) ≡ meet_views (view five_bits) (view table)
view-meet_example = view-meet five_bits table

meet_comm_example : view (meet five_bits table) ≡ view (meet table five_bits)
meet_comm_example = meet_comm five_bits table

meet_assoc_example :
    view (meet (meet five_bits table) (of_width (pos 8)))
    ≡ view (meet five_bits (meet table (of_width (pos 8))))
meet_assoc_example = meet_assoc five_bits table (of_width (pos 8))

meet_idem_example : view (meet table table) ≡ view table
meet_idem_example = meet_idem table
