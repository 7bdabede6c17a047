-- ===== src/St/Ast.antt =====
-- The syntax tree (st/ast.hpp). A node holds the names of the source and the ids that binding fills
-- in: a fresh node has `invalid_id` and `invalid_frame`.
use soft_plc.Base.{ℕ, Bool, Option, List, [], ◌∷◌, Str}
use soft_plc.Tags.Value.{TypeId, Value, Address}
use soft_plc.Tags.Store.{invalid_id}
use soft_plc.St.Ops.{UnaryOp, BinaryOp}

-- kInvalidFrame, the greatest std::size_t.
abbrev pub invalid_frame : ℕ
invalid_frame = 18446744073709551615

pub data Expr : Type 0 where
  literal : Value → Expr
  identifier : Str → ℕ → Expr
  unary : UnaryOp → Expr → Expr
  binary : BinaryOp → Expr → Expr → Expr

-- An input binding has the parameter's name, the argument and the parameter's tag. An output binding
-- has the parameter's name, the target's name, the parameter's tag and the target's tag.
pub data CallArg : Type 0 where
  input_arg : Str → Expr → ℕ → CallArg
  output_arg : Str → Str → ℕ → ℕ → CallArg

pub data RungOutputKind : Type 0 where
  direct set reset : RungOutputKind

pub record RungOutput : Type 0 where
  pub kind : RungOutputKind
  pub target_name : Str
  pub target_id : ℕ

mutual
  pub data Stmt : Type 0 where
    assign : Str → ℕ → Expr → Stmt
    if_stmt : Branches → Block → Stmt
    while_stmt : Expr → Block → Stmt
    call : Str → List CallArg → ℕ → Stmt
    rung : Expr → List RungOutput → Stmt

  -- StmtList
  pub data Block : Type 0 where
    nil : Block
    cons : Stmt → Block → Block

  -- std::vector<IfBranch>
  pub data Branches : Type 0 where
    no_branch : Branches
    branch : Expr → Block → Branches → Branches

pub data VarKind : Type 0 where
  var var_input var_output var_temp : VarKind

pub record VarDecl : Type 0 where
  pub name : Str
  pub kind : VarKind
  pub elementary_type : Option TypeId
  pub instance_of_type : Option Str
  pub address : Option Address
  pub initial_value : Option Value

pub record Frame : Type 0 where
  pub scope_name : Str
  pub body : Block
  pub temp_resets : List (ℕ × Value)

pub record PouAst : Type 0 where
  pub name : Str
  pub is_function : Bool
  pub var_decls : List VarDecl
  pub body : Block

pub record DataBlockAst : Type 0 where
  pub name : Str
  pub var_decls : List VarDecl

pub record StProgramAst : Type 0 where
  pub name : Str
  pub var_decls : List VarDecl
  pub body : Block
  pub frames : List Frame

pub record CompilationUnit : Type 0 where
  pub pous : List PouAst
  pub data_blocks : List DataBlockAst
  pub program : StProgramAst

-- The virtual clone(): a copy whose ids are all unresolved.
unfoldable pub clone_expr : Expr → Expr
clone_expr (literal v) = literal v
clone_expr (identifier name id) = identifier name invalid_id
clone_expr (unary op e) = unary op (clone_expr e)
clone_expr (binary op l r) = binary op (clone_expr l) (clone_expr r)

unfoldable pub clone_arg : CallArg → CallArg
unfolding clone_expr
clone_arg (input_arg name e id) = input_arg name (clone_expr e) invalid_id
clone_arg (output_arg name target id tid) = output_arg name target invalid_id invalid_id

unfoldable pub clone_args : List CallArg → List CallArg
unfolding clone_arg
clone_args [] = []
clone_args (a ∷ args) = clone_arg a ∷ clone_args args

unfoldable pub clone_outputs : List RungOutput → List RungOutput
clone_outputs [] = []
clone_outputs (o ∷ outs) = record o { target_id = invalid_id } ∷ clone_outputs outs

unfoldable mutual
  unfolding clone_expr clone_args clone_outputs

  pub clone_stmt : Stmt → Stmt
  clone_stmt (assign target id e) = assign target invalid_id (clone_expr e)
  clone_stmt (if_stmt bs els) = if_stmt (clone_branches bs) (clone_block els)
  clone_stmt (while_stmt c b) = while_stmt (clone_expr c) (clone_block b)
  clone_stmt (call name args frame) = call name (clone_args args) invalid_frame
  clone_stmt (rung c outs) = rung (clone_expr c) (clone_outputs outs)

  -- cloneStmtList
  pub clone_block : Block → Block
  clone_block nil = nil
  clone_block (cons s b) = cons (clone_stmt s) (clone_block b)

  pub clone_branches : Branches → Branches
  clone_branches no_branch = no_branch
  clone_branches (branch c b bs) = branch (clone_expr c) (clone_block b) (clone_branches bs)
