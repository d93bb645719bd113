-- ===== src/Lib.antt =====
-- Autopiper compiles a language with explicit pipeline constructs to Verilog (README.md,
-- doc/introduction.md). This library models parts of the compiler and proves them correct.
-- Paths are from the repository's root.
--
-- The frontend (src/frontend) parses a program, infers types and generates the intermediate
-- representation (IR); the backend (src/backend) checks the IR, turns control flow into predicates,
-- places statements into pipeline stages and prints Verilog.
--
-- Predicate models src/backend/predicate.h, the predicates in disjunctive normal form that lowering
--   attaches to blocks and statements: `Term` and `Predicate`, with `Term::AndWith`, `Term::OrWith`,
--   `Predicate::AndWith`, `OrWith`, `Simplify`, `IsTrue` and `IsFalse` as `and_factor`, `or_term`,
--   `and_with_factor`, `and_with`, `or_with`, `simplify`, `is_true` and `is_false`. Keys are the
--   addresses of `IRStmt`s. The loop of `OrWith` runs on fuel, one more than the number of factors
--   and live terms: each round that changes anything lowers that number. Printing is left out.
-- Types models src/frontend/type.cc, the inferred types and their meet. The specification, in
--   Types.View, is the meet of what two types say.
-- Ir models the records of src/backend/ir.h that the other parts read, and the control flow of
--   src/backend/ir.cc. Pointers are numbers, read through the program's memory.
-- Typecheck models src/backend/ir-typechecker.cc: the widths of ports, storage and bypass networks,
--   the widths of statements, block terminators, and `CheckPhis` for given answers of `DomTree::Dom`. A check logs its errors and returns; reading an
--   argument that is not there, which the source does not guard against, is the outcome `fault`, as is an
--   assertion that fails. The conversion of an `mpz_int` to `int` is the Boost library's, and a parameter.
--   `int` values are integers, since the widths that occur do not reach the range of `int`, and
--   `mpz_int` values are integers too.
--
-- Lexer models src/common/parser-utils.h: the character stream, `LexerImpl::ReadNext` as a machine
--   with one function for a turn of its loop, and the text of tokens. Characters are byte values in
--   the "C" locale; the assertion in `PeekableStream::Peek` is the outcome `crash`. The loop runs on
--   fuel. The conversion of digits to a number is the Boost library's, and a parameter.
--
-- Timing models src/backend/timing-dag.h, which places statements into pipeline stages: one phase of
--   the solver, `DoPhase`, as `visit` of a node, `pass` over the nodes and `do_phase` on fuel. Nodes
--   and variables live in stores by address; an edge is the address of its other end. The specification
--   of a schedule is `IsScheduled` in Timing.Schedule.Pass. Timing.Stages models `SetAnchors` and
--   `FindStageSets`; a node that is out of the range of the stages is the result `none`. Timing.Delay models the delays of
--   src/backend/pipe-timing.cc; the C library's `log2` is a parameter. Timing.Build models `AddNode`,
--   `AddVar`, `AddEdge` and `LiftNode`, Timing.Cycles `CheckForCycles`, Timing.Solve `Solve`, and
--   Timing.Pipes `PipeTimer::TimePipe`, from the statements of all pipes to the stages of each. The
--   searches run on fuel; what is enough is stated with the theorems: the nodes and edges for
--   `CheckForCycles`, the nodes for the walk, and the updates that variables may have for a phase.
--
-- Graph models src/backend/rpo.h, the depth-first walk with its reverse postorder and predecessors,
--   and the roots of a graph. Graph.Dominators models src/backend/domtree.h, the rounds of `Compute` with
--   `Merge`, and `Dom`; `refine` is a round. The sets of pointers stand in the order of the list of the nodes.
--
-- Crosslink models src/backend/ir-crosslinker.cc: the labels of targets and the numbers of arguments
--   become pointers in `link_all`; Crosslink.Create has the ports, the storage and the bypass networks
--   that are made of the names, and `crosslink`. A port, a storage and a network is its position in the
--   program. `to_int`, the conversion of an array size, is the Boost library's, and a parameter.
--
-- Not modelled: the code generators (src/backend/gen-verilog.cc, src/frontend/codegen.cc), lowering
-- (src/backend/lower.cc), the macro layer (src/frontend/macro.cc), type inference over the syntax
-- tree, the parsers, the command-line drivers, and all printing of error texts.
pub mod Prelude
pub mod Predicate
pub mod Types
pub mod Ir
pub mod Typecheck
pub mod Lexer
pub mod Graph
pub mod Timing
pub mod Crosslink
