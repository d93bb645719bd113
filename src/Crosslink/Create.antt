-- ===== src/Crosslink/Create.antt =====
-- src/backend/ir-crosslinker.cc: ports, storage and bypass networks, and `Crosslink`.
use autopiper.Prelude.{ℕ, Bool, true, false, List, [], ◌∷◌, ◌++◌, Option, none, some, length}
use autopiper.Prelude.Int.{ℤ, pos}
use autopiper.Ir.{
  StmtType, port_read, port_write, chan_read, chan_write, PortType, port, chan, Port, Storage,
  Bypass,
}
use autopiper.Timing.{set}
use autopiper.Crosslink.{
  Name, two_starts, two_ends, Cross, crossed, bad, ◌>>=◌, Raw, Links, Groups, writes_port,
  reads_port, is_port_export, writes_storage, reads_storage, is_array_size, is_bypass_read,
  is_bypass_write, is_bypass_start, is_bypass_end, link_all, get_port_map, get_storage_map,
  get_bypass_map,
}

-- The part of `IRProgram` that is written: the links of the statements, and what is made of the names.
pub record Made : Type 0 where
  pub bb_of : ℕ → Option ℕ
  pub links : ℕ → Links
  pub ports : List (Name × Port)
  pub storage : List (Name × ℤ × Storage)
  pub bypasses : List (Name × Bypass)

-- `SetBBBackpointers`.
unfoldable pub set_bb : ℕ → List ℕ → (ℕ → Option ℕ) → ℕ → Option ℕ
set_bb b [] at = at
set_bb b (s ∷ r) at = set_bb b r (set s (some b) at)

unfoldable pub set_bbs : List (ℕ × List ℕ) → (ℕ → Option ℕ) → ℕ → Option ℕ
set_bbs [] at = at
set_bbs ((b, l) ∷ r) at = set_bbs r (set_bb b l at)

abbrev pub all_bbs : List (ℕ × List ℕ) → List ℕ
all_bbs [] = []
all_bbs ((b, l) ∷ r) = b ∷ all_bbs r

abbrev pub all_stmts : List (ℕ × List ℕ) → List ℕ
all_stmts [] = []
all_stmts ((b, l) ∷ r) = l ++ all_stmts r

-- `IRPort()`, `IRStorage()` and `IRBypass()`.
abbrev pub blank_port : Port
blank_port = record {
  width = pos 0;
  type = port;
  exported = false;
  defs = [];
  uses = [];
  exports = [];
}

abbrev pub blank_storage : Storage
blank_storage = record { data_width = pos 0; index_width = pos 0; writers = []; readers = [] }

abbrev pub blank_bypass : Bypass
blank_bypass = record { start = none; end = none; reads = []; writes = []; width = pos 0 }

-- The type that a statement gives to its port; an export leaves it.
abbrev pub type_by : StmtType → PortType → PortType
type_by port_write t = port
type_by port_read t = port
type_by chan_write t = chan
type_by chan_read t = chan
type_by _ t = t

-- The loops over the statements of one name; `to_int` is the conversion of the Boost library.
module _ (raw : ℕ → Raw) (to_int : ℤ → ℤ) where
  unfoldable pub add_port : ℕ → Port → Port
  add_port s p =
      let t = (raw s).type in
      elim (writes_port t) [
        | true ↦ record p { type = type_by t p.type; defs = p.defs ++ s ∷ [] }
        | false ↦ elim (reads_port t) [
          | true ↦ record p { type = type_by t p.type; uses = p.uses ++ s ∷ [] }
          | false ↦ elim (is_port_export t) [
            | true ↦ record p { exported = true; exports = p.exports ++ s ∷ [] }
            | false ↦ p
          ]
        ]
      ]

  unfoldable pub fill_port : List ℕ → Port → Port
  fill_port [] p = p
  fill_port (s ∷ r) p = fill_port r (add_port s p)

  unfoldable pub mark_port : ℕ → List ℕ → (ℕ → Links) → ℕ → Links
  mark_port i [] at = at
  mark_port i (s ∷ r) at = mark_port i r (set s (record (at s) { port = some i }) at)

  -- `CreatePorts`.
  unfoldable pub create_ports : Groups → Made → Made
  create_ports [] m = m
  create_ports ((n, g) ∷ r) m = create_ports r (record m {
    links = mark_port (length m.ports) g m.links;
    ports = m.ports ++ (n, fill_port g blank_port) ∷ [];
  })

  abbrev write_of : ℕ → Storage → Storage
  write_of s st = elim (writes_storage (raw s).type) [
    | true ↦ record st { writers = st.writers ++ s ∷ [] }
    | false ↦ st
  ]

  abbrev read_of : ℕ → Storage → Storage
  read_of s st = elim (reads_storage (raw s).type) [
    | true ↦ record st { readers = st.readers ++ s ∷ [] }
    | false ↦ st
  ]

  abbrev elements_of : ℕ → ℤ → ℤ
  elements_of s n = elim (is_array_size (raw s).type) [ true ↦ to_int (raw s).constant | false ↦ n ]

  unfoldable pub fill_storage : List ℕ → ℤ × Storage → ℤ × Storage
  fill_storage [] st = st
  fill_storage (s ∷ r) (n, st) = fill_storage r (elements_of s n, read_of s (write_of s st))

  unfoldable pub mark_storage : ℕ → List ℕ → (ℕ → Links) → ℕ → Links
  mark_storage i [] at = at
  mark_storage i (s ∷ r) at = mark_storage i r (set s (record (at s) { storage = some i }) at)

  -- `CreateStorage`.
  unfoldable pub create_storage : Groups → Made → Made
  create_storage [] m = m
  create_storage ((n, g) ∷ r) m =
      let (elements, st) = fill_storage g (pos 0, blank_storage) in
      create_storage r (record m {
        links = mark_storage (length m.storage) g m.links;
        storage = m.storage ++ (n, elements, st) ∷ [];
      })

  -- The `switch` of `CreateBypass`.
  unfoldable pub add_bypass : Name → ℕ → Bypass → Cross Bypass
  add_bypass n s b =
      let t = (raw s).type in
      elim (is_bypass_start t) [
        | true ↦ elim b.start [
          | some x ↦ bad (two_starts n)
          | none ↦ crossed (record b { start = some s })
        ]
        | false ↦ elim (is_bypass_end t) [
          | true ↦ elim b.end [
            | some x ↦ bad (two_ends n)
            | none ↦ crossed (record b { end = some s })
          ]
          | false ↦ elim (is_bypass_write t) [
            | true ↦ crossed (record b { writes = b.writes ++ s ∷ [] })
            | false ↦ elim (is_bypass_read t) [
              | true ↦ crossed (record b { reads = b.reads ++ s ∷ [] })
              | false ↦ crossed b
            ]
          ]
        ]
      ]

  unfoldable pub fill_bypass : Name → List ℕ → Bypass → Cross Bypass
  fill_bypass n [] b = crossed b
  fill_bypass n (s ∷ r) b = add_bypass n s b >>= fill_bypass n r

  unfoldable pub mark_bypass : ℕ → List ℕ → (ℕ → Links) → ℕ → Links
  mark_bypass i [] at = at
  mark_bypass i (s ∷ r) at = mark_bypass i r (set s (record (at s) { bypass = some i }) at)

  -- `CreateBypass`.
  unfoldable pub create_bypass : Groups → Made → Cross Made
  create_bypass [] m = crossed m
  create_bypass ((n, g) ∷ r) m = fill_bypass n g blank_bypass >>= λ b. create_bypass r (record m {
    links = mark_bypass (length m.bypasses) g m.links;
    bypasses = m.bypasses ++ (n, b) ∷ [];
  })

  -- `Crosslink` behind the links of arguments and targets.
  unfoldable pub make_all : List ℕ → Made → Cross Made
  make_all stmts m = do
    ports ← get_port_map raw stmts
    let p = create_ports ports m
    storage ← get_storage_map raw stmts
    let s = create_storage storage p
    bypasses ← get_bypass_map raw stmts
    create_bypass bypasses s

  -- `Crosslink`; the flag is `crosslinked_args_bbs`, and each block comes with its statements.
  unfoldable pub crosslink : (ℕ → Name) → Bool → List (ℕ × List ℕ) → Made → Cross Made
  crosslink label flag blocks m =
      let stmts = all_stmts blocks in
      let n = record m { bb_of = set_bbs blocks m.bb_of } in
      elim flag [
        | true ↦ make_all stmts n
        | false ↦ link_all label raw (all_bbs blocks) stmts n.links >>= λ at.
            make_all stmts (record n { links = at })
      ]
