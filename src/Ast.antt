-- ===== src/Ast.antt =====
-- ast.h and ast.c: the enumerations of the tree (Kinds), the attribute table of a node with its
-- iterator (Table), and what they do (Laws, Walk).
pub mod Kinds
pub mod Table
pub mod Laws
pub mod Walk
