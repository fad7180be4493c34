-- ===== src/Shell.antt =====
-- homework-3-lottery-scheduling/user/sh.c (homework-1-sort has the same file): the scanner, the
-- recursive-descent parser and `nulterminate`. A text is the list of its bytes before the NUL, and
-- a pointer into it is an index; `es` is the length.
pub mod Lexer
pub mod Result
pub mod Parser
pub mod Words
pub mod Tokens
pub mod Loops
pub mod Total
pub mod Terminated
mod Tests
