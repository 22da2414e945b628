-- ===== src/Lib.antt =====
-- dp4c, a compiler front end for P4 in C: ashp4c.c reads a source file, cuts it into tokens (lex.c),
-- parses them to a tree (build_ast.c, with the keywords in the table of symtable.c), may print the
-- tree (print_ast.c), and walks it to declare the names (build_symtable.c). Memory comes of arenas
-- (arena.c).
--
-- The files, and the code that they model:
--   Prelude and its children: shared notation; Prelude/Outcome has the results of a run: a value, a
--     failure (`assert`, `error`, or undefined behaviour of C), or no fuel.
--   Basic, Basic/Strings: basic.c, predicates on characters and comparison of strings.
--   Hash, Hash/Bounds: hash.c, in 32-bit arithmetic written out.
--   Token: token.h. Ast/Kinds: the enums of ast.h.
--   Chain, Chain/Laws: the search of a chain, as ast.c and symtable.c both write it out.
--   Arena/Array, Arena/Laws, Arena/Refines, Arena/Append: arena.c, the arrays that grow by segments.
--     Arena/Blocks, Arena/Amounts: the lists of page blocks.
--   Ast/Table, Ast/Laws, Ast/Walk: ast.c, the attributes of a node and their iterator.
--   Lex/Chars, Lex/Integer: lex.c up to `token_install_integer`.
--   Lex/Switch, Lex/Operators, Lex/Texts, Lex/Numbers: the cases of the switch of `next_token`, by their
--     numbers. Lex/Machine: the loop of `next_token`, and `lex_tokenize`.
--   Lex/Progress, Lex/Steps and its children, Lex/Stream: each case moves within the text, the loops end.
--   Lex/Scan, Lex/Rounds: loops on characters, and runs of `next_token` of two and three rounds.
--   Lex/Words, Lex/Comments, Lex/Literals, Lex/Values: what single tokens are.
--   Symtable/Entries, Symtable/Table, Symtable/Declare: symtable.c. Symtable/Laws: the table as a map.
--     Symtable/Latest, Symtable/Growth, Symtable/Full: the table that is full. Symtable/Names:
--     declarations. Symtable/Below, Symtable/Scopes, Symtable/Nesting: scopes. Symtable/Homed,
--     Symtable/Rehash: the slots of the entries. Symtable/Traces: sequences of operations.
--     Symtable/Ends, Symtable/Levels: the operations end, and the level of the scope.
--   Syntax/Classes, Syntax/Operators, Syntax/Binary: build_ast.c, the parser's tests on tokens and its
--     tables of operators. Syntax/Tokens, Syntax/Stepping, Syntax/Ends: its steps over the tokens.
--   Syntax/Tree: ast.h, the tree that the parser builds. Syntax/Build: the state of the functions of
--     build_ast.c and the steps that they share. Its children have the functions `build_...`, by what
--     they read: Names, Types, Expressions, Operations, Prototypes, Structs, Locals, Statements, States,
--     Tables, Declarations, and Program, which ties them together.
--   Syntax/Build/Moves and its children: the functions pass tokens and end. Syntax/Build/Loops: one
--     that does not. Syntax/Build/Stands, Syntax/Build/Refusals: what a token at hand decides.
--   Syntax/Attributes: the attributes of a tree's node and the table of Ast/Table.
--   BuildSymtable/Names, BuildSymtable/Locals, BuildSymtable/Program: build_symtable.c.
--     BuildSymtable/Sizes, BuildSymtable/Levels, BuildSymtable/Balance: the walk and the scopes.
--     BuildSymtable/Aborts, BuildSymtable/Redeclared: how it stops.
--   Tests and its children: runs on concrete inputs, and each theorem at one.
--
-- State is passed on explicitly: the globals of lex.c are the record `Lexer`, those of symtable.c the
-- record `Symtable`. A pointer into the text is an offset. A chain of entries and a stack of symbols
-- are lists; a write through a pointer to an entry is a write to the first entry of its name. A C
-- string is the list of its bytes without the NUL.
--
-- Fuel: a loop on characters has a round for each character left and one more (`rounds`); the loop of
-- `next_token` has four for each character and four more (`run_fuel`); `lex_tokenize` has one for each
-- character and one more. The theorems on `next_token` and `lex_tokenize` show that these suffice. A
-- loop of build_ast.c has one round more than there are tokens, and the fuel of `builders` bounds the
-- nesting of `build_expression`, `build_typeRef`, `build_statement` and `build_parserStatement`: as much
-- fuel as tokens are left is enough, except for the loop over a parser's statements, which need not end.
-- The fuel of build_symtable.c bounds the nesting of blocks: as much as the tree is large is enough.
--
-- A node of the tree is a value: a function of build_ast.c changes the node that it has made or has been
-- given back, and no other. The symbol of a type refers to its node by the node's id.
--
-- An array of arena.c has a table of 24 segments, and so less than 2^24 elements. `floor_log2`, by which
-- it finds a segment, divides logarithms in floating point: those operations are a parameter, and their
-- quotient is taken to be right below 2^24. The models of the lexer, of the parser and of the symbol
-- table take an array as the list of its elements.
--
-- C defines the shifts of hash.c for widths from 1 to 30. The model goes on behind 30: a symbol table
-- of that width would be an array of 2^31 - 1 slots, which arena.c cannot make.
--
-- Not modelled: the allocator of arena.c but for its lists of blocks (memory does not run out, and what
-- it hands out is zero, as fresh pages are), the printers, the driver, and the copies of kernel samples
-- under ebpf/.
pub mod Prelude
pub mod Token
pub mod Basic
pub mod Hash
pub mod Chain
pub mod Arena
pub mod Ast
pub mod Symtable
pub mod Syntax
pub mod BuildSymtable
pub mod Lex
mod Tests
