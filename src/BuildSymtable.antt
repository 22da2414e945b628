-- ===== src/BuildSymtable.antt =====
-- build_symtable.c: the walk over the tree of a program that declares its names in their scopes (Names,
-- Locals, Program), the level of the scope on the way (Sizes, Levels, Balance), and how the walk stops
-- (Aborts, Redeclared).
pub mod Names
pub mod Locals
pub mod Program
pub mod Sizes
pub mod Levels
pub mod Balance
pub mod Aborts
pub mod Redeclared
