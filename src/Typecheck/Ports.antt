-- ===== src/Typecheck/Ports.antt =====
-- src/backend/ir-typechecker.cc: `DerivePortWidth` and `DeriveBypassSize`.
pub mod Consistent
use autopiper.Prelude.{
  ℕ, ◌+◌, Bool, true, false, not, ◌&&◌, ◌||◌, List, [], ◌∷◌, ◌++◌, Option, none, some,
  if◌then◌else◌,
}
use autopiper.Prelude.Int.{ℤ, pos, negsuc, eq_ℤ}
use autopiper.Ir.{
  Stmt, StmtType, Port, PortType, port, chan, port_read, port_write, chan_read, chan_write, Bypass,
  bypass_read, bypass_present, bypass_ready,
}
use autopiper.Typecheck.{
  Error, port_read_width, port_write_width, use_wrong_type, def_wrong_type, chan_exported,
  bypass_incomplete, bypass_write_arg, bypass_write_width, bypass_read_width, Result, ok, failed,
  fault, Checked, ◌>>=◌, ◌>>◌, pass, require, report_unless, each, arg_width_of,
}

-- `expected_read_type` and its test.
abbrev pub reads_as : PortType → StmtType → Bool
reads_as chan chan_read = true
reads_as port port_read = true
reads_as _ _ = false

abbrev pub writes_as : PortType → StmtType → Bool
writes_as chan chan_write = true
writes_as port port_write = true
writes_as _ _ = false

abbrev is_port : PortType → Bool
is_port port = true
is_port chan = false

abbrev unknown_width : ℤ
unknown_width = negsuc 0

module _ (at : ℕ → Stmt) where
  -- `if (width == -1 && l.size() > 0) width = l[0]->width`.
  or_first : List ℕ → ℤ → ℤ
  or_first [] w = w
  or_first (s ∷ r) w = if eq_ℤ w unknown_width then (at s).width else w

  first_def_width : List ℕ → Result ℤ
  first_def_width [] = ok unknown_width []
  first_def_width (d ∷ r) = arg_width_of at (at d) 0

  -- Pass 1 of `DerivePortWidth`.
  unfoldable pub port_width : Port → Result ℤ
  unfolding or_first first_def_width
  port_width p = do w ← first_def_width p.defs; ok (or_first p.exports (or_first p.uses w)) []

  -- What `DerivePortWidth` checks after it has set the width.
  unfoldable pub check_port : Port → Checked
  check_port p = do
    each (λ s. require (eq_ℤ (at s).width p.width) port_read_width) p.uses
    each (λ s. require (eq_ℤ (at s).width p.width) port_write_width) p.defs
    each (λ s. require (reads_as p.type (at s).type) use_wrong_type) p.uses
    each (λ s. require (writes_as p.type (at s).type) def_wrong_type) p.defs
    report_unless (not (p.exported && not (is_port p.type))) chan_exported

  -- `DerivePortWidth`: the port with its width set.
  unfoldable pub derive_port_width : Port → Result Port
  derive_port_width p = do w ← port_width p; let q = record p { width = w }; check_port q; ok q []

  -- The loop over the writes of `DeriveBypassSize`, with the width so far.
  unfoldable pub bypass_writes : List ℕ → ℤ → Result ℤ
  bypass_writes [] w = ok w []
  bypass_writes (s ∷ r) w =
      let rest = bypass_writes r (at s).width in
      arg_width_of at (at s) 0 >>= λ v.
      require (eq_ℤ v (at s).width) bypass_write_arg
      >> (require (eq_ℤ w unknown_width || eq_ℤ (at s).width w) bypass_write_width >> rest)

  -- The body of the loop over the reads: `default: assert(false)` is a fault.
  unfoldable pub bypass_read_ok : ℤ → StmtType → ℤ → Checked
  bypass_read_ok w bypass_read v = require (eq_ℤ v w) bypass_read_width
  bypass_read_ok w bypass_present v = require (eq_ℤ v (pos 1)) bypass_read_width
  bypass_read_ok w bypass_ready v = require (eq_ℤ v (pos 1)) bypass_read_width
  bypass_read_ok w _ v = fault

  -- `!bypass->start || !bypass->end || bypass->writes.empty()`, negated.
  is_complete : Option ℕ → Option ℕ → List ℕ → Bool
  is_complete (some _) (some _) (_ ∷ _) = true
  is_complete _ _ _ = false

  -- `DeriveBypassSize`: the bypass network with its width set.
  unfoldable pub derive_bypass_size : Bypass → Result Bypass
  unfolding is_complete
  derive_bypass_size b = do
    require (is_complete b.start b.end b.writes) bypass_incomplete
    w ← bypass_writes b.writes unknown_width
    each (λ s. bypass_read_ok w (at s).type (at s).width) b.reads
    ok (record b { width = w }) []
