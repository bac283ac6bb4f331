-- ===== src/Lib.antt =====
-- A model of the Modern C compiler's front end and of its checks of the intermediate code.
--
-- The compiler runs in phases: the lexer makes tokens of a text, the parser a tree of the tokens,
-- the semantic checker resolves names and types, the lowering makes MIR of the tree, the validator
-- checks the MIR, and the back end prints it. Each phase reports to one sink of diagnostics and the
-- next one runs only if nothing was reported as an error.
--
-- Which file models what (paths from the repository's root):
--   Common          tests on numbers, lists over the native numbers, texts as lists of bytes, sets
--                   of texts, `std::to_string` (Common/Decimal) and its digits (Common/Digits),
--                   integers (Common/Int), the counting of texts (Common/Counting).
--   Support         compiler/support: positions (Support/Span), the sink, its rendering and
--                   `ParseArrayLength` (Support/Diagnostics), `ResolveImportPathFromRoots` and
--                   `ResolveImportPath` (Support/Imports).
--   Lex             compiler/lex: `TokenKind`, `ToString` and `kKeywords` (Lex/Token), the values of
--                   literals (Lex/Literals), the position and `SkipTrivia` (Lex/Cursor), `LexNumber`
--                   (Lex/Number), `LexString` and `LexCharLiteral` (Lex/Quoted), `LexPunctuation`
--                   (Lex/Punctuation), `Lexer::Run` and `Lex` (Lex/Run). Lex/Moves, Lex/Reports and
--                   Lex/Tiling hold proofs: how far a scan moves, what it reports, and what the
--                   tokens say of the text.
--   Mir             compiler/mir: the parts of a function that its control flow rests on
--                   (Mir/Function) and `ValidateFunctionStructure` (Mir/Structure), with the
--                   worklist's proofs in Mir/Structure/Reach and the checks' in
--                   Mir/Structure/Checks and Mir/Structure/Valid; `ValidateFunctionDominance`
--                   (Mir/Dominance), with the order of the blocks in Mir/Dominance/Order, the map
--                   of sets in Meet and Fixpoint, and its meaning in Routes, Clean and Valid.
--   Sema            compiler/sema: `Type::Kind` (Sema/TypeKind), `Type`, its canonical form, `==`,
--                   `FormatType` and `SubstituteTypeParams` (Sema/SemaType), and layout.cpp:
--                   its data (Sema/Layout), the sizes and offsets (Sema/Layout/Arithmetic) and
--                   `LayoutComputer` (Sema/Layout/Compute), with proofs in Sema/Layout/Sound and
--                   Sema/Layout/Total; const_eval.cpp: the operations on int64 (Sema/Int64),
--                   `ConstValue` and its text (Sema/ConstValue), the operators (Sema/ConstEval);
--                   type_utils.cpp and type_predicates.h: `StripType` (Sema/Strip), the predicates,
--                   `IsAssignable` and `MergeNumericTypes` (Sema/Assignable), the explicit
--                   conversions and the predicates that open aliases (Sema/Conversion).
--   Driver          compiler/driver/build_graph.cpp: `ResolveImportPathWithPackageRules`
--                   (Driver/Resolve, what an importer may see in Access), the search for modules
--                   `DiscoverModuleGraphRecursive` and the assertion on its result
--                   (Driver/Discover, with the state's invariant in Ordered and Sound, the order in
--                   Topological and Asserted, the end of the search in Ends), the paths of a
--                   module, its key, and `DiscoverModuleGraph` (Driver/Graph).
--   Tests           runs of the model at concrete inputs.
--
-- How the code is modelled. A text is a list of bytes, and a member function of `Lexer` takes the
-- text that is left and the position, and returns them with the token; `ok`, the path of the file
-- and the sink are one record that is passed along (Lex/Status). A set of texts is a list with
-- `contains`. A `std::size_t` that can wrap is written modulo 2 ^ 64; the positions of a text and
-- counters of it are not bounded, since the text is in memory. The calls of `Compute` on the types
-- of fields go through an argument that stands for `Compute` itself, which the fuel then fills. The
-- source's `==` on types makes the subtypes of canonical types canonical again; the model's makes a
-- type canonical once and compares its parts (`fields_eq` is the source's text). Where the source
-- takes the front of a vector that its callers keep from being empty, the model gives an empty
-- result for an empty one.
--
-- Fuel. `Lex` runs on one round for each byte and one for the end, since each round reads a byte or
-- stops. The worklist of `ValidateFunctionStructure` runs on two rounds for each block and two
-- more, since a block is expanded once and adds two labels at most; the loop that orders the blocks
-- for `ValidateFunctionDominance` on four for each block and three more, since it also meets each
-- label a second time. A pass of the loop over `dominators` that changes something takes a label out of
-- a set, so there are no more passes than pairs of reachable labels, and one. The search for modules
-- nests a call for each module that is being visited, so it runs on one for each module that the
-- imports can lead to, and one. `StripType` opens an alias inside aliases of other names
-- only, so it runs on one more than there are declarations. A run of newlines is read on one
-- step for each byte, and a number is printed on one step more than its value. `Compute` of a
-- layout goes from a type to the types of a declaration's fields, which the code bounds nowhere for
-- declarations with parameters, so its fuel is a cost of the type's name that is larger than the
-- cost of each type in the declaration. All other loops are on the structure of their input.
--
-- Parameters. `read_double` stands for the extraction of a `double` from a stream. `candidate`,
-- `is_file` and `parent_path` stand for `std::filesystem`. `DoubleOps` holds the language's
-- operations on `double`. `Sources` holds what the driver asks of `std::filesystem` and the two functions
-- that its caller hands over, and `Parser` the parser as the search for modules sees it.
--
-- Not modelled: the parser, the checker beyond what is listed, the lowering to MIR, the checks of MIR
-- instructions, interface files, the LLVM back end, the driver but for the build graph of modules,
-- and the runtime, kernel, standard library and examples, which are programs in the compiled language. Character tests are
-- those of the C locale.
pub mod Common
pub mod Support
pub mod Sema
pub mod Lex
pub mod Mir
pub mod Driver
mod Tests
