-- ===== src/Ast.antt =====
-- crates/jdruby-ast/src/nodes.rs: the syntax tree. The payload of a variant, a struct of its own in
-- the source, is the arguments of its constructor, in the struct's order; a Vec or an Option of
-- nodes is a data type of the block. Texts are their bytes, and an f64 is its bits.
use jdruby.Base.{ℕ, Bool, List, Option}
use jdruby.Base.Int.{ℤ}
use jdruby.Common.Source.{SourceSpan}

abbrev pub Text : Type 0
Text = List ℕ

pub data BinOperator : Type 0 where
  add sub mul div mod_op pow eq not_eq lt gt lt_eq gt_eq spaceship case_eq match_op not_match :
      BinOperator
  and or bit_and bit_or bit_xor shl shr range range_excl : BinOperator

pub data UnOperator : Type 0 where
  neg not bit_not pos : UnOperator

pub data ParamKind : Type 0 where
  required optional rest keyword_rest block keyword : ParamKind

pub data AttrKind : Type 0 where
  reader writer accessor : AttrKind

pub data MixinKind : Type 0 where
  include extend prepend : MixinKind

mutual
  pub data Expr : Type 0 where
    integer_lit : ℤ → SourceSpan → Expr
    float_lit : ℕ → SourceSpan → Expr
    string_lit : Text → SourceSpan → Expr
    interpolated_string : StringParts → SourceSpan → Expr
    symbol_lit : Text → SourceSpan → Expr
    bool_lit : Bool → SourceSpan → Expr
    nil_lit : SourceSpan → Expr
    array_lit : Exprs → SourceSpan → Expr
    hash_lit : Entries → SourceSpan → Expr
    range_lit : Expr → Expr → Bool → SourceSpan → Expr
    regex_lit : Text → Text → SourceSpan → Expr
    local_var : Text → SourceSpan → Expr
    instance_var : Text → SourceSpan → Expr
    class_var : Text → SourceSpan → Expr
    global_var : Text → SourceSpan → Expr
    const_ref : List Text → SourceSpan → Expr
    self_expr : SourceSpan → Expr
    binary_op : Expr → BinOperator → Expr → SourceSpan → Expr
    unary_op : UnOperator → Expr → SourceSpan → Expr
    method_call : MethodCall → Expr
    block_call : MethodCall → Params → Stmts → SourceSpan → Expr
    super_call : Exprs → SourceSpan → Expr
    yield_expr : Exprs → SourceSpan → Expr
    lambda : Params → Stmts → SourceSpan → Expr
    proc : Params → Stmts → SourceSpan → Expr
    pattern_match : Expr → Expr → SourceSpan → Expr
    ternary : Expr → Expr → Expr → SourceSpan → Expr
    defined : Expr → SourceSpan → Expr

  -- receiver, method, args, kwargs, block_arg, span
  pub data MethodCall : Type 0 where
    call : OptExpr → Text → Exprs → Kwargs → OptExpr → SourceSpan → MethodCall

  pub data OptExpr : Type 0 where
    no_expr : OptExpr
    some_expr : Expr → OptExpr

  pub data Exprs : Type 0 where
    no_exprs : Exprs
    cons_expr : Expr → Exprs → Exprs

  pub data Entries : Type 0 where
    no_entries : Entries
    cons_entry : Expr → Expr → Entries → Entries

  pub data Kwargs : Type 0 where
    no_kwargs : Kwargs
    cons_kwarg : Text → Expr → Kwargs → Kwargs

  pub data StringParts : Type 0 where
    no_parts : StringParts
    literal : Text → StringParts → StringParts
    interpolation : Expr → StringParts → StringParts

  -- name, default, kind, span
  pub data Param : Type 0 where
    param : Text → OptExpr → ParamKind → SourceSpan → Param

  pub data Params : Type 0 where
    no_params : Params
    cons_param : Param → Params → Params

  pub data Stmt : Type 0 where
    expr_stmt : Expr → SourceSpan → Stmt
    method_def : Text → Params → Stmts → Bool → SourceSpan → Stmt
    class_def : Text → OptExpr → Stmts → SourceSpan → Stmt
    module_def : Text → Stmts → SourceSpan → Stmt
    if_stmt : Expr → Stmts → Elsifs → OptStmts → SourceSpan → Stmt
    unless_stmt : Expr → Stmts → OptStmts → SourceSpan → Stmt
    while_stmt : Expr → Stmts → SourceSpan → Stmt
    until_stmt : Expr → Stmts → SourceSpan → Stmt
    for_stmt : Text → Expr → Stmts → SourceSpan → Stmt
    case_stmt : OptExpr → Whens → OptStmts → SourceSpan → Stmt
    begin_rescue : Stmts → Rescues → OptStmts → OptStmts → SourceSpan → Stmt
    return_stmt : OptExpr → SourceSpan → Stmt
    yield_stmt : Exprs → SourceSpan → Stmt
    break_stmt : OptExpr → SourceSpan → Stmt
    next_stmt : OptExpr → SourceSpan → Stmt
    assignment : AssignTarget → Expr → SourceSpan → Stmt
    compound_assignment : AssignTarget → BinOperator → Expr → SourceSpan → Stmt
    alias : Text → Text → SourceSpan → Stmt
    require : Text → Bool → SourceSpan → Stmt
    attr_decl : AttrKind → List Text → SourceSpan → Stmt
    mixin_stmt : MixinKind → Expr → SourceSpan → Stmt

  pub data Stmts : Type 0 where
    no_stmts : Stmts
    cons_stmt : Stmt → Stmts → Stmts

  pub data OptStmts : Type 0 where
    no_body : OptStmts
    some_body : Stmts → OptStmts

  pub data Elsifs : Type 0 where
    no_elsifs : Elsifs
    cons_elsif : Expr → Stmts → SourceSpan → Elsifs → Elsifs

  pub data Whens : Type 0 where
    no_whens : Whens
    cons_when : Exprs → Stmts → SourceSpan → Whens → Whens

  -- exceptions, var, body, span
  pub data Rescues : Type 0 where
    no_rescues : Rescues
    cons_rescue : Exprs → Option Text → Stmts → SourceSpan → Rescues → Rescues

  pub data AssignTarget : Type 0 where
    local_target : Text → AssignTarget
    instance_target : Text → AssignTarget
    class_target : Text → AssignTarget
    global_target : Text → AssignTarget
    constant_target : Text → AssignTarget
    index_target : Expr → Expr → AssignTarget
    attribute_target : Expr → Text → AssignTarget

pub record Program : Type 0 where
  pub body : Stmts
  pub span : SourceSpan
