-- ===== src/Parser.antt =====
-- src/parser: the syntax trees that the parser builds and the engine runs.
pub mod Ast
pub mod Token
pub mod Lexer
