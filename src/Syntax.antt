-- ===== src/Syntax.antt =====
-- build_ast.c: the parser's tests on tokens (Classes), its tables of binary operators (Operators, with
-- what they have in common in Binary), and its steps over the tokens (Tokens, and Stepping and Ends on
-- where they stop); the tree (Tree, Attributes) and what builds it (Build).
pub mod Classes
pub mod Operators
pub mod Binary
pub mod Tokens
pub mod Stepping
pub mod Ends
pub mod Attributes
pub mod Tree
pub mod Build
