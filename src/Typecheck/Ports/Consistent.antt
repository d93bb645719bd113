-- ===== src/Typecheck/Ports/Consistent.antt =====
-- What a port satisfies when its check returns true.
use autopiper.Prelude.{ℕ, ◌≡◌, refl, subst, Bool, true, false, not, ◌&&◌, List, [], ◌∷◌, All}
use autopiper.Prelude.Int.{ℤ, eq_ℤ, eq_ℤ_iff}
use autopiper.Ir.{Stmt, Port, PortType, port, chan}
use autopiper.Typecheck.{
  Error, ok, require, report_unless, each, use_wrong_type, def_wrong_type, port_read_width,
  port_write_width, chan_exported,
}
use autopiper.Typecheck.Inversion.{>>=-eq-ok, each-eq-ok, append-eq-nil}
use autopiper.Typecheck.Ports.{
  port_width, check_port, derive_port_width, reads_as, writes_as, is_port,
}

-- All reads and writes have the port's width and its kind.
pub record IsConsistent (at : ℕ → Stmt) (p : Port) : Type 0 where
  pub read_widths : All (λ s. (at s).width ≡ p.width) p.uses
  pub write_widths : All (λ s. (at s).width ≡ p.width) p.defs
  pub read_types : All (λ s. reads_as p.type (at s).type ≡ true) p.uses
  pub write_types : All (λ s. writes_as p.type (at s).type ≡ true) p.defs

widths_eq :
    (at : ℕ → Stmt) (w : ℤ) (l : List ℕ)
    → All (λ s. eq_ℤ (at s).width w ≡ true) l
    → All (λ s. (at s).width ≡ w) l
widths_eq at w [] h = tt
widths_eq at w (s ∷ r) h = ((eq_ℤ_iff (at s).width w).0 h.0, widths_eq at w r h.1)

export_reported :
    (b : Bool) {u : Unit {0}} {f : List Error}
    → report_unless b chan_exported ≡ ok u f
    → f ≡ []
    → b ≡ true
export_reported true h k = refl
export_reported false h k = cc

check_port-eq-ok :
    (at : ℕ → Stmt) (p : Port) {u : Unit {0}} {e : List Error}
    → check_port at p ≡ ok u e
    → IsConsistent at p × (e ≡ [] → not (p.exported && not (is_port p.type)) ≡ true)
unfolding check_port
check_port-eq-ok at p h =
    let (_, c1, d1, p1, h1, e1) =
      >>=-eq-ok (each (λ s. require (eq_ℤ (at s).width p.width) port_read_width) p.uses) _ h in
    let (_, c2, d2, p2, h2, e2) =
      >>=-eq-ok (each (λ s. require (eq_ℤ (at s).width p.width) port_write_width) p.defs) _ h1 in
    let (_, c3, d3, p3, h3, e3) =
      >>=-eq-ok (each (λ s. require (reads_as p.type (at s).type) use_wrong_type) p.uses) _ h2 in
    let (_, c4, d4, p4, h4, e4) =
      >>=-eq-ok (each (λ s. require (writes_as p.type (at s).type) def_wrong_type) p.defs) _ h3 in
    let (k1, l1) = each-eq-ok (λ s. eq_ℤ (at s).width p.width) port_read_width p.uses p1 in
    let (k2, l2) = each-eq-ok (λ s. eq_ℤ (at s).width p.width) port_write_width p.defs p2 in
    let (k3, l3) = each-eq-ok (λ s. reads_as p.type (at s).type) use_wrong_type p.uses p3 in
    let (k4, l4) = each-eq-ok (λ s. writes_as p.type (at s).type) def_wrong_type p.defs p4 in
    (
      record {
        read_widths = widths_eq at p.width p.uses k1;
        write_widths = widths_eq at p.width p.defs k2;
        read_types = k3;
        write_types = k4;
      },
      λ none_reported. export_reported _ h4 (cc),
    )

exported_as_port :
    (exported : Bool) (t : PortType)
    → not (exported && not (is_port t)) ≡ true
    → exported ≡ true
    → t ≡ port
exported_as_port exported port h e = refl
exported_as_port true chan h e = cc
exported_as_port false chan h e = cc

-- If `DerivePortWidth` returns true, it has changed the port's width only, every read and write of
-- the port has that width and is of the port's kind, and if it reported nothing, an exported port is
-- not a channel.
pub derive_port_width-IsConsistent :
    (at : ℕ → Stmt) (p q : Port) {e : List Error}
    → derive_port_width at p ≡ ok q e
    → IsConsistent at q
      × (q ≡ record p { width = q.width })
      × (e ≡ [] → q.exported ≡ true → q.type ≡ port)
unfolding derive_port_width
derive_port_width-IsConsistent at p q {e} h =
    let (w, c1, d1, p1, h1, e1) = >>=-eq-ok (port_width at p) _ h in
    let sized = record p { width = w } in
    let (_, c2, d2, p2, h2, e2) = >>=-eq-ok (check_port at sized) _ h1 in
    let (consistent, exported) = check_port-eq-ok at sized p2 in
    let same : sized ≡ q = cc in
    subst
      (λ r.
        IsConsistent at r
        × (r ≡ record p { width = r.width })
        × (e ≡ [] → r.exported ≡ true → r.type ≡ port))
      same
      (
        consistent,
        refl,
        λ k.
            let (_, kd) = append-eq-nil e c1 d1 e1 k in
            let (kc, _) = append-eq-nil d1 c2 d2 e2 kd in
            exported_as_port p.exported p.type (exported kc),
      )
