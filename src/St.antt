-- ===== src/St.antt =====
-- The Structured Text pipeline: src/st and include/softplc/st.
pub mod Fpu
pub mod Ops
pub mod Token
pub mod Scan
pub mod Literals
pub mod Lexer
pub mod Ast
pub mod Parsing
pub mod Parser
pub mod Exec
pub mod Interp
pub mod Scope
pub mod Binder
pub mod StandardFbs
pub mod Program
