-- ===== src/Tests.antt =====
-- Runs on concrete inputs, and each theorem at one.
mod Runs
mod Lexing
mod Nodes
mod Strings
mod Operators
mod Tables
mod Scopes
mod Growth
mod Parsing
mod Endings
mod Walking
mod Arrays
mod Blocks
