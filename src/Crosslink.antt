-- ===== src/Crosslink.antt =====
-- src/backend/ir-crosslinker.cc: `IRProgram::Crosslink`, which turns the names and numbers that the
-- parser leaves in statements into pointers, and makes ports, storage and bypass networks.
-- A string is a list of characters. A loop over the blocks and their statements runs over the list of
-- all statements. An error ends the run; the text that it is reported with is left out.
pub mod Keys
pub mod Link
pub mod Create
pub mod Groups
pub mod Made
pub mod Examples
use autopiper.Prelude.{
  ℕ, ◌+◌, ◌==◌, Bool, true, false, ◌||◌, ◌&&◌, not, List, [], ◌∷◌, ◌++◌, Option, none, some,
  if◌then◌else◌, length, ltb,
}
use autopiper.Prelude.Int.{ℤ, pos, eq_ℤ}
use autopiper.Ir.{
  StmtType, port_read, port_write, chan_read, chan_write, port_export, reg_read, reg_write,
  array_read, array_write, array_size, bypass_start, bypass_end, bypass_write, bypass_present,
  bypass_ready, bypass_read, PortType, port, chan, Port, Storage, Bypass,
}
use autopiper.Timing.{set}

abbrev pub Name : Type 0
Name = List ℕ

-- `operator==` of strings.
unfoldable pub name_eq : Name → Name → Bool
name_eq [] [] = true
name_eq [] (d ∷ s) = false
name_eq (c ∷ r) [] = false
name_eq (c ∷ r) (d ∷ s) = c == d && name_eq r s

-- `operator<` of strings.
unfoldable pub name_lt : Name → Name → Bool
name_lt [] [] = false
name_lt [] (d ∷ s) = true
name_lt (c ∷ r) [] = false
name_lt (c ∷ r) (d ∷ s) = ltb c d || (c == d && name_lt r s)

-- The errors, each with the block, the statement or the network that it is reported for.
pub data CrossError : Type 0 where
  duplicate_label duplicate_valnum unknown_target unknown_arg : ℕ → CrossError
  empty_port_name empty_storage_name empty_bypass_name : ℕ → CrossError
  two_starts two_ends : Name → CrossError

pub data Cross (A : Type 0) : Type 0 where
  crossed : A → Cross A
  bad : CrossError → Cross A

infixl 5 ◌>>=◌
abbrev pub ◌>>=◌ : {A B : Type 0} → Cross A → (A → Cross B) → Cross B
crossed a >>= f = f a
bad e >>= f = bad e

-- The fields of `IRStmt` that are read.
pub record Raw : Type 0 where
  pub valnum : ℤ
  pub type : StmtType
  pub target_names : List Name
  pub arg_nums : List ℤ
  pub port_name : Name
  pub constant : ℤ

-- The fields of `IRStmt` that are written; ports, storage and networks are positions in the program.
pub record Links : Type 0 where
  pub targets : List ℕ
  pub args : List ℕ
  pub port : Option ℕ
  pub storage : Option ℕ
  pub bypass : Option ℕ

abbrev pub no_links : Links
no_links = record { targets = []; args = []; port = none; storage = none; bypass = none }

-- What the maps from keys to addresses are used for; `index` is the loop of `GetBBMap` and of
-- `GetValnumMap`, `resolve` that of `LinkStmts` over the names or the numbers of a statement.
module _ {K : Type 0} (eq : K → K → Bool) where
  unfoldable pub find_key : K → List (K × ℕ) → Option ℕ
  find_key k [] = none
  find_key k ((j, a) ∷ r) = let rest = find_key k r in if eq j k then some a else rest

  unfoldable pub index : (ℕ → K) → (ℕ → CrossError) → List ℕ → List (K × ℕ) → Cross (List (K × ℕ))
  index key dup [] m = crossed m
  index key dup (x ∷ r) m = elim (find_key (key x) m) [
    | some y ↦ bad (dup x)
    | none ↦ index key dup r (m ++ (key x, x) ∷ [])
  ]

  unfoldable pub resolve : List (K × ℕ) → CrossError → List K → List ℕ → Cross (List ℕ)
  resolve m e [] got = crossed got
  resolve m e (k ∷ r) got = elim (find_key k m) [
    | none ↦ bad e
    | some x ↦ resolve m e r (got ++ x ∷ [])
  ]

-- `GetBBMap` and `GetValnumMap`.
abbrev pub get_bb_map : (ℕ → Name) → List ℕ → Cross (List (Name × ℕ))
get_bb_map label bbs = index name_eq label duplicate_label bbs []

abbrev pub get_valnum_map : (ℕ → Raw) → List ℕ → Cross (List (ℤ × ℕ))
get_valnum_map raw stmts = index eq_ℤ (λ s. (raw s).valnum) duplicate_valnum stmts []

-- `LinkStmts`.
module _ (raw : ℕ → Raw) (targets : List (Name × ℕ)) (valnums : List (ℤ × ℕ)) where
  unfoldable pub link_stmt : ℕ → Links → Cross Links
  link_stmt s l = do
    ts ← resolve name_eq targets (unknown_target s) (raw s).target_names l.targets
    args ← resolve eq_ℤ valnums (unknown_arg s) (raw s).arg_nums l.args
    crossed (record l { targets = ts; args = args })

  unfoldable pub link_stmts : List ℕ → (ℕ → Links) → Cross (ℕ → Links)
  link_stmts [] at = crossed at
  link_stmts (s ∷ r) at = link_stmt s (at s) >>= λ l. link_stmts r (set s l at)

-- The first part of `Crosslink`, for programs that the parser made.
unfoldable pub link_all : (ℕ → Name) → (ℕ → Raw) → List ℕ → List ℕ → (ℕ → Links) → Cross (ℕ → Links)
link_all label raw bbs stmts at = do
  targets ← get_bb_map label bbs
  valnums ← get_valnum_map raw stmts
  link_stmts raw targets valnums stmts at

-- `IRWritesPort` and the like.
abbrev pub writes_port : StmtType → Bool
writes_port port_write = true
writes_port chan_write = true
writes_port _ = false

abbrev pub reads_port : StmtType → Bool
reads_port port_read = true
reads_port chan_read = true
reads_port _ = false

abbrev pub writes_storage : StmtType → Bool
writes_storage reg_write = true
writes_storage array_write = true
writes_storage _ = false

abbrev pub reads_storage : StmtType → Bool
reads_storage reg_read = true
reads_storage array_read = true
reads_storage _ = false

-- The statements that `GetPortMap`, `GetStorageMap` and `GetBypassMap` take.
abbrev pub is_port_export : StmtType → Bool
is_port_export port_export = true
is_port_export _ = false

abbrev pub is_array_size : StmtType → Bool
is_array_size array_size = true
is_array_size _ = false

abbrev pub of_port : StmtType → Bool
of_port t = reads_port t || (writes_port t || is_port_export t)

abbrev pub of_storage : StmtType → Bool
of_storage t = reads_storage t || (writes_storage t || is_array_size t)

abbrev pub is_bypass_read : StmtType → Bool
is_bypass_read bypass_present = true
is_bypass_read bypass_ready = true
is_bypass_read bypass_read = true
is_bypass_read _ = false

abbrev pub is_bypass_write : StmtType → Bool
is_bypass_write bypass_write = true
is_bypass_write _ = false

abbrev pub is_bypass_start : StmtType → Bool
is_bypass_start bypass_start = true
is_bypass_start _ = false

abbrev pub is_bypass_end : StmtType → Bool
is_bypass_end bypass_end = true
is_bypass_end _ = false

abbrev pub of_bypass : StmtType → Bool
of_bypass t = is_bypass_start t || (is_bypass_end t || (is_bypass_read t || is_bypass_write t))

-- The maps from names to statements, in the order of the names.
abbrev pub Groups : Type 0
Groups = List (Name × List ℕ)

unfoldable pub find_group : Name → Groups → Option (List ℕ)
find_group n [] = none
find_group n ((k, g) ∷ r) = let rest = find_group n r in if name_eq k n then some g else rest

unfoldable pub push_group : Name → ℕ → Groups → Groups
push_group n s [] = []
push_group n s ((k, g) ∷ r) =
    let rest = push_group n s r in if name_eq k n then (k, g ++ s ∷ []) ∷ r else (k, g) ∷ rest

unfoldable pub new_group : Name → List ℕ → Groups → Groups
new_group n h [] = (n, h) ∷ []
new_group n h ((k, g) ∷ r) =
    let rest = new_group n h r in if name_lt n k then (n, h) ∷ (k, g) ∷ r else (k, g) ∷ rest

-- `(*m)[name].push_back(stmt)`.
unfoldable pub add_to : Name → ℕ → Groups → Groups
add_to n s m = elim (find_group n m) [ none ↦ new_group n (s ∷ []) m | some g ↦ push_group n s m ]

-- The loop of `GetPortMap`, `GetStorageMap` and `GetBypassMap`.
unfoldable pub gather :
    (ℕ → Raw) → (StmtType → Bool) → (ℕ → CrossError) → List ℕ → Groups → Cross Groups
gather raw takes empty [] m = crossed m
gather raw takes empty (s ∷ r) m = elim (takes (raw s).type) [
  | false ↦ gather raw takes empty r m
  | true ↦ elim (name_eq (raw s).port_name []) [
    | true ↦ bad (empty s)
    | false ↦ gather raw takes empty r (add_to (raw s).port_name s m)
  ]
]

abbrev pub get_port_map : (ℕ → Raw) → List ℕ → Cross Groups
get_port_map raw stmts = gather raw of_port empty_port_name stmts []

abbrev pub get_storage_map : (ℕ → Raw) → List ℕ → Cross Groups
get_storage_map raw stmts = gather raw of_storage empty_storage_name stmts []

abbrev pub get_bypass_map : (ℕ → Raw) → List ℕ → Cross Groups
get_bypass_map raw stmts = gather raw of_bypass empty_bypass_name stmts []
