-- ===== src/Shell.antt =====
-- OS-PA1, the shell: the tokens of a command line, and aliases.
pub mod Tokens
pub mod Alias
pub mod Session
pub mod Expansion
pub mod Pipe
mod Tests
