-- ===== src/Crosslink/Made.antt =====
-- src/backend/ir-crosslinker.cc: what is made of the statements of a name.
use autopiper.Prelude.{
  ℕ, ◌<◌, ◌≡◌, refl, sym, ◌∙◌, ap, subst, ◌⊎◌, inl, inr, Bool, true, false, ◌||◌, List, [], ◌∷◌,
  ◌++◌, Option, none, some, arith, length, Option-cases,
}
use mathlib.Core.List.{append_assoc, append-nil}
use autopiper.Prelude.Int.{ℤ, pos}
use autopiper.Ir.{
  StmtType, bypass_start, bypass_end, bypass_write, bypass_present, bypass_ready, bypass_read,
  port_write, port_read, port_export, chan_write, chan_read, PortType, port, Port, Bypass,
}
use autopiper.Crosslink.{
  Name, two_starts, two_ends, crossed, bad, Raw, Groups, writes_port, reads_port, is_port_export,
  is_bypass_start, is_bypass_end, is_bypass_read, is_bypass_write,
}
use autopiper.Crosslink.Create.{
  Made, blank_port, blank_bypass, type_by, add_port, fill_port, create_ports, add_bypass,
  fill_bypass,
}

-- The statements of some types in a list.
unfoldable pub typed : (ℕ → Raw) → (StmtType → Bool) → List ℕ → List ℕ
typed raw takes [] = []
typed raw takes (s ∷ r) = elim (takes (raw s).type) [
  | true ↦ s ∷ typed raw takes r
  | false ↦ typed raw takes r
]

-- The statement of a network that is at most one.
abbrev pub listed : Option ℕ → List ℕ
listed none = []
listed (some s) = s ∷ []

-- What more statements make of a network.
record Networked (raw : ℕ → Raw) (g : List ℕ) (b c : Bypass) : Type 0 where
  starts : listed c.start ≡ listed b.start ++ typed raw is_bypass_start g
  ends : listed c.end ≡ listed b.end ++ typed raw is_bypass_end g
  written : c.writes ≡ b.writes ++ typed raw is_bypass_write g
  reading : c.reads ≡ b.reads ++ typed raw is_bypass_read g

abbrev Outcome : (ℕ → Raw) → (ℤ → ℤ) → Name → List ℕ → Bypass → Type 0
Outcome raw to_int n g b =
    ((c : Bypass) × (fill_bypass raw to_int n g b ≡ crossed c) × Networked raw g b c)
    ⊎ ((fill_bypass raw to_int n g b ≡ bad (two_starts n))
        × (1 < length (listed b.start ++ typed raw is_bypass_start g)))
    ⊎ ((fill_bypass raw to_int n g b ≡ bad (two_ends n))
        × (1 < length (listed b.end ++ typed raw is_bypass_end g)))

-- A statement that changes the network, and what comes behind it.
Outcome-cons :
    (raw : ℕ → Raw) (to_int : ℤ → ℤ) (n : Name) (s : ℕ) (r : List ℕ) (b d : Bypass)
    → add_bypass raw to_int n s b ≡ crossed d
    → listed d.start ++ typed raw is_bypass_start r
      ≡ listed b.start ++ typed raw is_bypass_start (s ∷ r)
    → listed d.end ++ typed raw is_bypass_end r ≡ listed b.end ++ typed raw is_bypass_end (s ∷ r)
    → d.writes ++ typed raw is_bypass_write r ≡ b.writes ++ typed raw is_bypass_write (s ∷ r)
    → d.reads ++ typed raw is_bypass_read r ≡ b.reads ++ typed raw is_bypass_read (s ∷ r)
    → Outcome raw to_int n r d
    → Outcome raw to_int n (s ∷ r) b
unfolding fill_bypass
Outcome-cons raw to_int n s r b d e p q u v (inl (c, f, h)) = inl (
  c,
  rw (e, fill_bypass) f,
  record {
    starts = h.starts ∙ p;
    ends = h.ends ∙ q;
    written = h.written ∙ u;
    reading = h.reading ∙ v;
  },
)
Outcome-cons raw to_int n s r b d e p q u v (inr (inl (f, l))) =
    inr (inl (rw (e, fill_bypass) f, subst (λ l. 1 < length l) p l))
Outcome-cons raw to_int n s r b d e p q u v (inr (inr (f, l))) =
    inr (inr (rw (e, fill_bypass) f, subst (λ l. 1 < length l) q l))

-- A type has one part in a network at most.
abbrev Parts : StmtType → Bool → Bool → Bool → Bool → Type 0
Parts t a b c d =
    (is_bypass_start t ≡ a)
    × (is_bypass_end t ≡ b)
    × (is_bypass_write t ≡ c)
    × (is_bypass_read t ≡ d)

part-cases :
    (t : StmtType)
    → Parts t true false false false
      ⊎ Parts t false true false false
      ⊎ Parts t false false true false
      ⊎ Parts t false false false true
      ⊎ Parts t false false false false
part-cases bypass_start = inl (refl, refl, refl, refl)
part-cases bypass_end = inr (inl (refl, refl, refl, refl))
part-cases bypass_write = inr (inr (inl (refl, refl, refl, refl)))
part-cases bypass_present = inr (inr (inr (inl (refl, refl, refl, refl))))
part-cases bypass_ready = inr (inr (inr (inl (refl, refl, refl, refl))))
part-cases bypass_read = inr (inr (inr (inl (refl, refl, refl, refl))))
part-cases _ = inr (inr (inr (inr (refl, refl, refl, refl))))

two_or_more : (s x : ℕ) (l : List ℕ) → 1 < length (x ∷ s ∷ l)
two_or_more s x l = omega arith

fill_bypass-Outcome :
    (raw : ℕ → Raw) (to_int : ℤ → ℤ) (n : Name) (g : List ℕ) (b : Bypass) → Outcome raw to_int n g b
unfolding fill_bypass typed add_bypass
fill_bypass-Outcome raw to_int n [] b = inl (
  b,
  refl,
  record {
    starts = sym (append-nil (listed b.start));
    ends = sym (append-nil (listed b.end));
    written = sym (append-nil b.writes);
    reading = sym (append-nil b.reads);
  },
)
fill_bypass-Outcome raw to_int n (s ∷ r) b = elim (part-cases (raw s).type) [
  | inl (e, f, g, h) ↦ elim (Option-cases b.start) [
    | inl q ↦
        let d = record b { start = some s } in
        Outcome-cons raw to_int n s r b d (rw (e, q, add_bypass) refl) (rw (e, q, typed) refl)
          (rw (f, typed) refl) (rw (g, typed) refl) (rw (h, typed) refl)
          (fill_bypass-Outcome raw to_int n r d)
    | inr (x, q) ↦ inr (
        inl (
          rw (e, q, fill_bypass, add_bypass) refl,
          rw (e, q, typed) (two_or_more s x (typed raw is_bypass_start r)),
        ))
  ]
  | inr (inl (e, f, g, h)) ↦ elim (Option-cases b.end) [
    | inl q ↦
        let d = record b { end = some s } in
        Outcome-cons raw to_int n s r b d (rw (e, f, q, add_bypass) refl) (rw (e, typed) refl)
          (rw (f, q, typed) refl) (rw (g, typed) refl) (rw (h, typed) refl)
          (fill_bypass-Outcome raw to_int n r d)
    | inr (x, q) ↦ inr (
        inr (
          rw (e, f, q, fill_bypass, add_bypass) refl,
          rw (f, q, typed) (two_or_more s x (typed raw is_bypass_end r)),
        ))
  ]
  | inr (inr (inl (e, f, g, h))) ↦
      let d = record b { writes = b.writes ++ s ∷ [] } in
      Outcome-cons raw to_int n s r b d (rw (e, f, g, add_bypass) refl) (rw (e, typed) refl)
        (rw (f, typed) refl)
        (rw (g, typed) (append_assoc b.writes (s ∷ []) (typed raw is_bypass_write r)))
        (rw (h, typed) refl) (fill_bypass-Outcome raw to_int n r d)
  | inr (inr (inr (inl (e, f, g, h)))) ↦
      let d = record b { reads = b.reads ++ s ∷ [] } in
      Outcome-cons raw to_int n s r b d (rw (e, f, g, h, add_bypass) refl) (rw (e, typed) refl)
        (rw (f, typed) refl) (rw (g, typed) refl)
        (rw (h, typed) (append_assoc b.reads (s ∷ []) (typed raw is_bypass_read r)))
        (fill_bypass-Outcome raw to_int n r d)
  | inr (inr (inr (inr (e, f, g, h)))) ↦
      Outcome-cons raw to_int n s r b b (rw (e, f, g, h, add_bypass) refl) (rw (e, typed) refl)
        (rw (f, typed) refl) (rw (g, typed) refl) (rw (h, typed) refl)
        (fill_bypass-Outcome raw to_int n r b)
]

-- A new network is filled with the statements of its name: then it has its only start statement, if there
-- is one, and its only end statement, and the statements that write and that read it, in order; or it
-- is reported that there is more than one start, or more than one end, and there is.
pub fill_bypass-blank :
    (raw : ℕ → Raw) (to_int : ℤ → ℤ) (n : Name) (g : List ℕ)
    → ((b : Bypass) × (fill_bypass raw to_int n g blank_bypass ≡ crossed b)
        × (listed b.start ≡ typed raw is_bypass_start g)
        × (listed b.end ≡ typed raw is_bypass_end g)
        × (b.writes ≡ typed raw is_bypass_write g)
        × (b.reads ≡ typed raw is_bypass_read g))
      ⊎ ((fill_bypass raw to_int n g blank_bypass ≡ bad (two_starts n))
          × (1 < length (typed raw is_bypass_start g)))
      ⊎ ((fill_bypass raw to_int n g blank_bypass ≡ bad (two_ends n))
          × (1 < length (typed raw is_bypass_end g)))
fill_bypass-blank raw to_int n g = elim (fill_bypass-Outcome raw to_int n g blank_bypass) [
  | inl (b, e, h) ↦ inl (b, e, h.starts, h.ends, h.written, h.reading)
  | inr p ↦ inr p
]

-- What the statements of a name make of a port.
unfoldable pub type_of : (ℕ → Raw) → List ℕ → PortType → PortType
type_of raw [] t = t
type_of raw (s ∷ r) t = type_of raw r (type_by (raw s).type t)

abbrev is_nonempty : List ℕ → Bool
is_nonempty [] = false
is_nonempty (x ∷ r) = true

abbrev pub port_of : (ℕ → Raw) → List ℕ → Port
port_of raw g = record {
  width = pos 0;
  type = type_of raw g port;
  exported = is_nonempty (typed raw is_port_export g);
  defs = typed raw writes_port g;
  uses = typed raw reads_port g;
  exports = typed raw is_port_export g;
}

abbrev more_port : (ℕ → Raw) → List ℕ → Port → Port
more_port raw g p = record {
  width = p.width;
  type = type_of raw g p.type;
  exported = p.exported || is_nonempty (typed raw is_port_export g);
  defs = p.defs ++ typed raw writes_port g;
  uses = p.uses ++ typed raw reads_port g;
  exports = p.exports ++ typed raw is_port_export g;
}

port_part-cases :
    (t : StmtType)
    → ((writes_port t ≡ true) × (reads_port t ≡ false) × (is_port_export t ≡ false))
      ⊎ ((writes_port t ≡ false) × (reads_port t ≡ true) × (is_port_export t ≡ false))
      ⊎ ((writes_port t ≡ false)
          × (reads_port t ≡ false)
          × (is_port_export t ≡ true)
          × ((p : PortType) → type_by t p ≡ p))
      ⊎ ((writes_port t ≡ false)
          × (reads_port t ≡ false)
          × (is_port_export t ≡ false)
          × ((p : PortType) → type_by t p ≡ p))
port_part-cases port_write = inl (refl, refl, refl)
port_part-cases chan_write = inl (refl, refl, refl)
port_part-cases port_read = inr (inl (refl, refl, refl))
port_part-cases chan_read = inr (inl (refl, refl, refl))
port_part-cases port_export = inr (inr (inl (refl, refl, refl, λ p. refl)))
port_part-cases _ = inr (inr (inr (refl, refl, refl, λ p. refl)))

port_ext :
    (p q : Port)
    → p.width ≡ q.width
    → p.type ≡ q.type
    → p.exported ≡ q.exported
    → p.defs ≡ q.defs
    → p.uses ≡ q.uses
    → p.exports ≡ q.exports
    → p ≡ q
port_ext p q a b c d e f =
    λ i. record { width = a i; type = b i; exported = c i; defs = d i; uses = e i; exports = f i }

or_false : (b : Bool) → b ≡ (b || false)
or_false true = refl
or_false false = refl

exported_by : (b : Bool) → true ≡ (b || true)
exported_by true = refl
exported_by false = refl

-- One statement more.
more_port-cons :
    (raw : ℕ → Raw) (to_int : ℤ → ℤ) (s : ℕ) (r : List ℕ) (p : Port)
    → more_port raw r (add_port raw to_int s p) ≡ more_port raw (s ∷ r) p
unfolding typed type_of add_port
more_port-cons raw to_int s r p = elim (port_part-cases (raw s).type) [
  | inl (e, f, g) ↦
      port_ext _ _ (rw (e, add_port) refl) (rw (e, add_port) refl) (rw (e, g, add_port, typed) refl)
        (rw (e, add_port, typed) (append_assoc p.defs (s ∷ []) (typed raw writes_port r)))
        (rw (e, f, add_port, typed) refl) (rw (e, g, add_port, typed) refl)
  | inr (inl (e, f, g)) ↦
      port_ext _ _ (rw (e, f, add_port) refl) (rw (e, f, add_port) refl)
        (rw (e, f, g, add_port, typed) refl) (rw (e, f, add_port, typed) refl)
        (rw (e, f, add_port, typed) (append_assoc p.uses (s ∷ []) (typed raw reads_port r)))
        (rw (e, f, g, add_port, typed) refl)
  | inr (inr (inl (e, f, g, h))) ↦
      port_ext _ _ (rw (e, f, g, add_port) refl) (rw (e, f, g, h p.type, add_port) refl)
        (rw (e, f, g, add_port, typed) (exported_by p.exported))
        (rw (e, f, g, add_port, typed) refl) (rw (e, f, g, add_port, typed) refl)
        (rw (e, f, g, add_port, typed)
          (append_assoc p.exports (s ∷ []) (typed raw is_port_export r)))
  | inr (inr (inr (e, f, g, h))) ↦
      port_ext _ _ (rw (e, f, g, add_port) refl) (rw (e, f, g, h p.type, add_port) refl)
        (rw (e, f, g, add_port, typed) refl) (rw (e, f, g, add_port, typed) refl)
        (rw (e, f, g, add_port, typed) refl) (rw (e, f, g, add_port, typed) refl)
]

fill_port-more :
    (raw : ℕ → Raw) (to_int : ℤ → ℤ) (g : List ℕ) (p : Port)
    → fill_port raw to_int g p ≡ more_port raw g p
unfolding fill_port typed type_of
fill_port-more raw to_int [] p =
    port_ext _ _ refl refl (or_false p.exported) (sym (append-nil p.defs)) (sym (append-nil p.uses))
      (sym (append-nil p.exports))
fill_port-more raw to_int (s ∷ r) p =
    fill_port-more raw to_int r (add_port raw to_int s p) ∙ more_port-cons raw to_int s r p

-- The ports that the groups are to become.
abbrev pub ports_of : (ℕ → Raw) → Groups → List (Name × Port)
ports_of raw [] = []
ports_of raw ((n, g) ∷ r) = (n, port_of raw g) ∷ ports_of raw r

-- Each name becomes a port, in the order of the names: its definitions are the statements that write it,
-- its uses those that read it, its exports those that export it, and it is exported if there is one. Its
-- type is what the last statement that reads or writes it says, or a plain port.
pub create_ports-ports_of :
    (raw : ℕ → Raw) (to_int : ℤ → ℤ) (gs : Groups) (m : Made)
    → (create_ports raw to_int gs m).ports ≡ m.ports ++ ports_of raw gs
unfolding create_ports
create_ports-ports_of raw to_int [] m = sym (append-nil m.ports)
create_ports-ports_of raw to_int ((n, g) ∷ r) m =
    create_ports-ports_of raw to_int r _
    ∙ append_assoc m.ports ((n, fill_port raw to_int g blank_port) ∷ []) (ports_of raw r)
    ∙ ap (λ p. m.ports ++ (n, p) ∷ ports_of raw r) (fill_port-more raw to_int g blank_port)
