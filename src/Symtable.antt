-- ===== src/Symtable.antt =====
-- symtable.c: the scoped symbol table.
pub mod Entries
pub mod Table
pub mod Declare
pub mod Laws
pub mod Below
pub mod Scopes
pub mod Latest
pub mod Homed
pub mod Rehash
pub mod Growth
pub mod Full
pub mod Names
pub mod Nesting
pub mod Traces
pub mod Ends
pub mod Levels
