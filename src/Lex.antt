-- ===== src/Lex.antt =====
-- lex.c: the lexer. Definitions: the character helpers (Chars), integers (Integer), the cases of the
-- switch of `next_token` (Switch, Operators, Texts, Numbers), and the loops (Machine). The other
-- modules prove properties.
pub mod Chars
pub mod Integer
pub mod Switch
pub mod Operators
pub mod Texts
pub mod Numbers
pub mod Machine
pub mod Progress
pub mod Steps
pub mod Stream
pub mod Scan
pub mod Rounds
pub mod Words
pub mod Comments
pub mod Literals
pub mod Values
