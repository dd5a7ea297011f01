-- ===== src/Lib.antt =====
-- jdruby, a Ruby compiler with an interpreter, a garbage collector and a C interface.
--
-- The program compiles Ruby source through a syntax tree and two intermediate representations to
-- LLVM code, or interprets the second representation, the MIR. This library models the MIR with
-- its optimisation passes and the interpreter that gives it its meaning, the lexer and the
-- parser, the memory layer, the marking and the roots of the collector, the method tables and the
-- resolver, the tagged words and the symbol table of the C interface, the fibers of the runtime,
-- the types and scopes of the semantic analysis, and the virtual registers of the code
-- generator.
--
-- Base: shared names, tests and lists over the native numbers, association lists for hash maps,
--   machine integers (Int: an i64 is an integer with wrap), bit operations as arithmetic (Bits),
--   and Outcome for code that may panic.
-- Mir (crates/jdruby-mir/src): Nodes is nodes.rs. Fold, Optimize/Constants, Optimize/Remove and
--   Optimize/Reach are the passes of optimize.rs under the names of the source, and
--   Optimize/Rounds runs them in their order; Peephole is opt_peephole.rs, Fusion and
--   Fusion/Copies opt_fusion.rs. The passes meet the interpreter in Fold/Laws, Optimize/FoldSound
--   (with Optimize/Straight and Optimize/Known), Optimize/Reach/Runs, Peephole/Loads,
--   Peephole/Identity and Peephole/Fallthrough; Optimize/Reach/Exact has the paths through the
--   blocks of a function.
-- Jit (crates/jdruby-jit/src/interpreter.rs): Value holds the values and eval_binop, Exec the
--   state, exec_instruction and the loop of call_function.
-- Gc (crates/jdgc/src): Util is util.rs, Header header.rs, Tlab tlab.rs, Region and
--   Region/Manager region.rs with the Allocator of allocator.rs, Marker marker.rs and barrier.rs,
--   Roots roots.rs, Collector collector.rs and heap.rs. The marker shades header words of a
--   memory, which is a function of the address; Marker/Barriers puts the write barrier against a
--   graph of references.
-- Ffi: Tags is crates/jdruby-common/src/ffi_types.rs, Symbols
--   crates/jdruby-ffi/src/storage/symbol_table.rs.
-- Runtime: Fiber and Fiber/Registry are crates/jdruby-runtime/src/fiber.rs, which the crate's
--   lib.rs does not name as a module yet.
-- Lexer (crates/jdruby-lexer/src): Token is token.rs. Cursor, Operators, Literals and Scan are
--   lexer.rs under the names of the source: a source is its bytes, and the cursor holds those
--   that are left. The operators are a table of the bytes that may follow, and munch its reader;
--   make_token panics where the slice of the source does. Ahead, Lexemes and Scanned say where
--   each function leaves the cursor, Reads, Tiles and Total what next_token and tokenize give.
-- Ast (crates/jdruby-ast/src/nodes.rs): the syntax tree. A node's lists and options are data
--   types of one block.
-- Parser (crates/jdruby-parser/src/parser.rs): a parsing function takes the parser's state and
--   comes to an answer, to None, to a panic or to the end of the fuel, with the new state. State
--   holds that and the token helpers, Text parse_int and unescape_string, Calls what a function
--   is given for its recursion, Lists arguments, parameters and bodies, Primary and Calling the
--   expressions up to parse_postfix, Expression the levels of operators, Definitions and Control
--   the statements, and Statement parse_stmt and parse. Kinds is the equality of token kinds.
--   Runs says what a function promises, Current, Branches and Helpers hold a rule for each way to
--   put the parser together, and the children of Total go through its functions with them.
--   Grammar and its children put the levels of operators against a grammar. Stuck follows a token
--   that starts no statement.
-- Meta (crates/jdruby-meta/src): Table is method_table.rs, Cache inline_cache.rs, Resolver
--   resolver.rs. The resolver walks the classes that are registered with it and keeps the inline
--   cache of the call sites; Resolver/Hierarchy puts the walk against the order in which a method
--   is looked for. A linked chain is a list.
-- Common: Source is crates/jdruby-common/src/source.rs.
-- Codegen: Registers is virtual_reg.rs and allocator.rs of crates/jdruby-codegen/src/register.
-- Semantic: Types is crates/jdruby-semantic/src/types.rs, Scope scope.rs beside it.
--
-- Conventions. A usize, a u64 and a VALUE are numbers below 2 ^ 64 whose sums wrap where the
-- source does not rule it out; an f64 is its bit pattern, and its operations are a parameter. A
-- hash map is an association list. An atomic word is a field; where threads meet on it
-- (try_shade_gray, try_install_forwarding) the words that are there at each exchange are
-- arguments. `checks` says whether the build panics on overflow.
--
-- Fuel. reach_loop has one step more than there are branch targets, since every round but the
-- last uses one up; chase two steps for each copy and one, since a copy lengthens no walk by
-- more; iter_objects and sweep_region one for every 16 bytes of a region, which is the least that
-- an object takes; tokenize one step more than there are bytes, since every token but the last
-- takes one; process_queue one more than there are objects in the queue, since marking adds none;
-- scan_stack one more than there are bytes; lookup_method one more than there are classes, since
-- it visits none twice. The loops of the parser have one more than the calls inside one another,
-- of which there are at most two for each token that is left, since every second one takes a
-- token. The interpreter's run takes the number of blocks to enter as its fuel, a variable in
-- every statement about it.
--
-- Parameters. The instructions of the interpreter that call methods, create objects or reflect
-- are the parameter `other` of exec_instruction; where a result needs it, a hypothesis says that
-- they write no register but their own. The addresses that the system's allocator gives are
-- parameters, as are the collector's float comparisons and its float product, and what the parser
-- reads a float as.
--
-- Not modelled: the HIR, lowering, code generation for LLVM, the standard library, blocks and the
-- class factory, threads, and all input and output.
pub mod Base
pub mod Ffi
pub mod Mir
pub mod Jit
pub mod Gc
pub mod Runtime
pub mod Semantic
pub mod Lexer
pub mod Meta
pub mod Codegen
pub mod Common
pub mod Ast
pub mod Parser
