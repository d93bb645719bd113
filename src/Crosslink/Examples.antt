-- ===== src/Crosslink/Examples.antt =====
-- src/backend/ir-crosslinker.cc: a program of two blocks, of which the first jumps to the second.
use autopiper.Prelude.{
  true, ℕ, zero, suc, ◌<◌, ◌≡◌, refl, ◌⊎◌, false, List, [], ◌∷◌, ◌++◌, none, some, length,
}
use autopiper.Prelude.Int.{ℤ, pos, eq_ℤ, eq_ℤ_iff}
use autopiper.Prelude.Member.{In}
use autopiper.Ir.{jmp, port_write, port_read, bypass_read, Bypass}
use autopiper.Timing.{set}
use autopiper.Crosslink.{
  Name, name_eq, name_lt, CrossError, two_starts, two_ends, unknown_arg, empty_port_name, Cross,
  crossed, bad, Raw, Links, no_links, find_key, index, resolve, link_stmt, link_stmts, link_all,
  Groups, of_port, find_group, push_group, new_group, add_to, gather, is_bypass_start,
  is_bypass_end, is_bypass_write, is_bypass_read,
}
use autopiper.Crosslink.Keys.{name_eq_iff, IsKeyed}
use autopiper.Crosslink.Link.{IsLinked, IsReason, link_all-outcome}
use autopiper.Crosslink.Groups.{IsSorted, IsFull, IsNameless, group_of, named, gather-groups}
use autopiper.Crosslink.Create.{
  Made, blank_bypass, add_port, fill_port, mark_port, create_ports, fill_storage, mark_storage,
  create_storage, add_bypass, fill_bypass, mark_bypass, create_bypass, make_all, crosslink, set_bb,
  set_bbs,
}
use autopiper.Crosslink.Made.{typed, listed, ports_of, fill_bypass-blank, create_ports-ports_of}

abbrev label : ℕ → Name
label zero = 65 ∷ []
label _ = 66 ∷ []

-- A write to the port `p`, a jump to the block `B`, a read of `p`, and a read of the network `n`.
abbrev program : ℕ → Raw
program zero = record {
  valnum = pos 5;
  type = port_write;
  target_names = [];
  arg_nums = pos 7 ∷ [];
  port_name = 112 ∷ [];
  constant = pos 0;
}
program (suc zero) = record {
  valnum = pos 6;
  type = jmp;
  target_names = (66 ∷ []) ∷ [];
  arg_nums = [];
  port_name = [];
  constant = pos 0;
}
program (suc (suc zero)) = record {
  valnum = pos 7;
  type = port_read;
  target_names = [];
  arg_nums = [];
  port_name = 112 ∷ [];
  constant = pos 0;
}
program _ = record {
  valnum = pos 8;
  type = bypass_read;
  target_names = [];
  arg_nums = pos 7 ∷ [];
  port_name = 110 ∷ [];
  constant = pos 0;
}

abbrev bbs : List ℕ
bbs = 0 ∷ 1 ∷ []

abbrev stmts : List ℕ
stmts = 0 ∷ 1 ∷ 2 ∷ 3 ∷ []

abbrev blocks : List (ℕ × List ℕ)
blocks = (0, 0 ∷ 1 ∷ []) ∷ (1, 2 ∷ 3 ∷ []) ∷ []

abbrev unmade : Made
unmade = record {
  bb_of = λ s. none;
  links = λ s. no_links;
  ports = [];
  storage = [];
  bypasses = [];
}

abbrev same_int : ℤ → ℤ
same_int n = n

abbrev links_of : ℕ → Cross Made → Links
links_of s (crossed m) = m.links s
links_of s (bad e) = no_links

-- The whole of `Crosslink` on it.
crosslinked_write :
    links_of 0 (crosslink program same_int label false blocks unmade)
    ≡ record { targets = []; args = 2 ∷ []; port = some 0; storage = none; bypass = none }
unfolding crosslink set_bb set_bbs make_all link_all index find_key resolve link_stmt link_stmts set
    name_eq name_lt gather add_to find_group push_group new_group create_ports fill_port add_port
    mark_port create_storage fill_storage mark_storage create_bypass fill_bypass add_bypass
    mark_bypass
crosslinked_write = refl

crosslinked_jump :
    links_of 1 (crosslink program same_int label false blocks unmade)
    ≡ record { targets = 1 ∷ []; args = []; port = none; storage = none; bypass = none }
unfolding crosslink set_bb set_bbs make_all link_all index find_key resolve link_stmt link_stmts set
    name_eq name_lt gather add_to find_group push_group new_group create_ports fill_port add_port
    mark_port create_storage fill_storage mark_storage create_bypass fill_bypass add_bypass
    mark_bypass
crosslinked_jump = refl

-- Without the statement 7, its user is refused.
argument_unknown : link_all label program bbs (0 ∷ []) (λ s. no_links) ≡ bad (unknown_arg 0)
unfolding link_all index find_key resolve link_stmt link_stmts name_eq
argument_unknown = refl

link_all-outcome_example :
    ((o : ℕ → Links) × (link_all label program bbs stmts (λ s. no_links) ≡ crossed o)
      × IsKeyed name_eq name_eq_iff label bbs
      × IsKeyed eq_ℤ eq_ℤ_iff (λ s. (program s).valnum) stmts
      × ((s : ℕ) → In s stmts → IsLinked label program bbs stmts s (o s)))
    ⊎ ((e : CrossError) × (link_all label program bbs stmts (λ s. no_links) ≡ bad e)
        × IsReason label program bbs stmts e)
link_all-outcome_example = link_all-outcome label program bbs stmts

gather-groups_example :
    ((o : Groups) × (gather program of_port empty_port_name stmts [] ≡ crossed o)
      × ((s : ℕ) → In s stmts → of_port (program s).type ≡ true → ¬ ((program s).port_name ≡ []))
      × IsSorted o
      × IsFull o
      × ((n : Name) → group_of (find_group n o) ≡ named program of_port n stmts))
    ⊎ ((s : ℕ) × (gather program of_port empty_port_name stmts [] ≡ bad (empty_port_name s))
        × IsNameless program of_port stmts s)
gather-groups_example = gather-groups program of_port empty_port_name stmts

fill_bypass-blank_example :
    ((b : Bypass) × (fill_bypass program same_int (110 ∷ []) (3 ∷ []) blank_bypass ≡ crossed b)
      × (listed b.start ≡ typed program is_bypass_start (3 ∷ []))
      × (listed b.end ≡ typed program is_bypass_end (3 ∷ []))
      × (b.writes ≡ typed program is_bypass_write (3 ∷ []))
      × (b.reads ≡ typed program is_bypass_read (3 ∷ [])))
    ⊎ ((fill_bypass program same_int (110 ∷ []) (3 ∷ []) blank_bypass ≡ bad (two_starts (110 ∷ [])))
        × (1 < length (typed program is_bypass_start (3 ∷ []))))
    ⊎ ((fill_bypass program same_int (110 ∷ []) (3 ∷ []) blank_bypass ≡ bad (two_ends (110 ∷ [])))
        × (1 < length (typed program is_bypass_end (3 ∷ []))))
fill_bypass-blank_example = fill_bypass-blank program same_int (110 ∷ []) (3 ∷ [])

create_ports-ports_of_example :
    (create_ports program same_int ((112 ∷ [], 0 ∷ 2 ∷ []) ∷ []) unmade).ports
    ≡ [] ++ ports_of program ((112 ∷ [], 0 ∷ 2 ∷ []) ∷ [])
create_ports-ports_of_example =
    create_ports-ports_of program same_int ((112 ∷ [], 0 ∷ 2 ∷ []) ∷ []) unmade
