-- ===== src/Parser/Grammar.antt =====
-- The grammar of sums and products of numbers, and that the levels of operators in parser.rs give its
-- trees.
pub mod Sums
pub mod Ends
pub mod Levels
use jdruby.Base.{
  ℕ, zero, suc, ◌+◌, ◌-◌, ◌≡◌, ◌≤◌, ◌<◌, ◌∙◌, refl, sym, ap, Bool, true, false, Option, some, none,
  List, [], ◌∷◌, length, get_elem?, ltb, arith, if◌then◌else◌,
}
use jdruby.Common.Source.{SourceSpan, merge}
use jdruby.Lexer.Token.{TokenKind, Token, integer}
use jdruby.Ast.{Text, BinOperator, Expr, integer_lit, binary_op}
use jdruby.Parser.Kinds.{kind_index}
use jdruby.Parser.Text.{parse_int}
use jdruby.Parser.State.{
  Parser, Parsed, parsed, Parse, bind, ◌>>=◌, pure, token_at, on_current, branch, check, advance,
  current_span, prev_span, span_before, span_from, span_of, lexeme,
}
use jdruby.Parser.Calls.{Calls, branch_op, left_loop, left_assoc}
use jdruby.Parser.Current.{lt→ltb}
use jdruby.Parser.Helpers.{get_elem?-some}

abbrev span_or : Option Token → SourceSpan
span_or none = record { start = 0; end = 0 }
span_or (some t) = span_of t

-- The span of the token before a position.
abbrev pub end_span : List Token → ℕ → SourceSpan
end_span ts zero = record { start = 0; end = 0 }
end_span ts (suc i) = span_or (get_elem? ts i)

-- The token at a position, which is not past the end.
pub record Here (ts : List Token) (i : ℕ) (t : Token) : Type 0 where
  pub found : token_at i ts ≡ some t
  pub inside : i < length ts

-- The tokens from one position to another, as items with operators between them: the tree leans to
-- the left. The span is that of all of it.
pub data Chain (ts : List Token) (op_of : TokenKind → Option BinOperator)
    (Item : ℕ → Expr → ℕ → Type 0) : ℕ → Expr → ℕ → Type 0 where
  one : {i : ℕ} {e : Expr} {j : ℕ} → Item i e j → Chain ts op_of Item i e j
  more :
      {i : ℕ} {l r : Expr} {j k : ℕ} (first t : Token) (op : BinOperator)
      → Chain ts op_of Item i l j
      → token_at i ts ≡ some first
      → Here ts j t
      → op_of t.kind ≡ some op
      → Item (suc j) r k
      → Chain ts op_of Item i (binary_op l op r (merge (span_of first) (end_span ts k))) k

span_before-end :
    (k : ℕ) (s : Parser) → k ≤ length s.tokens → span_before k s ≡ parsed (end_span s.tokens k) s
unfolding span_before pure
span_before-end zero s h = refl
span_before-end (suc i) s h = let (t, e) = get_elem?-some s.tokens i h in rw e refl

-- The state at a position.
abbrev pub at_pos : Parser → ℕ → Parser
at_pos s i = record s { pos = i }

-- What a level's operand promises of its items, where a token of a kind that may follow comes next.
pub record Parses (s : Parser) (operand : Parse Expr) (Item : ℕ → Expr → ℕ → Type 0)
    (Follow : TokenKind → Type 0) : Type 0 where
  pub gives :
      {i : ℕ} {e : Expr} {j : ℕ} (t : Token)
      → Item i e j
      → token_at j s.tokens ≡ some t
      → Follow t.kind
      → operand (at_pos s i) ≡ parsed e (at_pos s j)
  pub moves : {i : ℕ} {e : Expr} {j : ℕ} → Item i e j → (i < j) × (j ≤ length s.tokens)

some-injective : {A : Type 0} {a b : A} → some a ≡ some b → a ≡ b
some-injective h = cc

span_from-end :
    (start : SourceSpan) (s : Parser) (k : ℕ)
    → k ≤ length s.tokens
    → span_from start (at_pos s k) ≡ parsed (merge start (end_span s.tokens k)) (at_pos s k)
unfolding span_from prev_span pure ◌>>=◌
span_from-end start s k h = rw (span_before-end k (at_pos s k) h) refl

left_loop-stop :
    (s : Parser) (op_of : TokenKind → Option BinOperator) (operand : Parse Expr)
    (start : SourceSpan) (n : ℕ) (e : Expr) (j : ℕ) (u : Token)
    → token_at j s.tokens ≡ some u
    → op_of u.kind ≡ none
    → left_loop op_of operand start (suc n) e (at_pos s j) ≡ parsed e (at_pos s j)
unfolding left_loop branch_op on_current pure
left_loop-stop s op_of operand start n e j u hu o = rw hu (rw o refl)

module _ (s : Parser) (op_of : TokenKind → Option BinOperator) (operand : Parse Expr)
    (Item : ℕ → Expr → ℕ → Type 0) (Follow : TokenKind → Type 0) (p : Parses s operand Item Follow)
    (ops : (k : TokenKind) (op : BinOperator) → op_of k ≡ some op → Follow k) where
  -- One turn of the loop, at an operator.
  left_loop-step :
      (start : SourceSpan) (n : ℕ) (l r : Expr) (j k : ℕ) (t u : Token) (op : BinOperator)
      → Here s.tokens j t
      → op_of t.kind ≡ some op
      → Item (suc j) r k
      → token_at k s.tokens ≡ some u
      → Follow u.kind
      → left_loop op_of operand start (suc n) l (at_pos s j)
        ≡ left_loop op_of operand start n
            (binary_op l op r (merge start (end_span s.tokens k)))
            (at_pos s k)
  unfolding left_loop branch_op advance on_current ◌>>=◌
  left_loop-step start n l r j k t u op h o it hu fu =
      let next : j + 1 ≡ suc j = omega arith in
      rw h.found (
        rw o (
          rw h.found (
            rw (lt→ltb j (length s.tokens) h.inside) (
              rw next
                (rw (p.gives u it hu fu) (rw (span_from-end start s k (p.moves it).1) refl))))))

  -- What the loop stands at behind a chain, with the fuel for the rest.
  Chain-run :
      {i j : ℕ} {e : Expr} (first u : Token)
      → Chain s.tokens op_of Item i e j
      → token_at i s.tokens ≡ some first
      → token_at j s.tokens ≡ some u
      → Follow u.kind
      → (e0 : Expr) × (j0 k : ℕ) × (k < j)
        × (j ≤ length s.tokens)
        × (i < j)
        × (operand (at_pos s i) ≡ parsed e0 (at_pos s j0))
        × ((n : ℕ)
            → left_loop op_of operand (span_of first) (k + n) e0 (at_pos s j0)
              ≡ left_loop op_of operand (span_of first) n e (at_pos s j))
  Chain-run first u (one {e = e} {j} it) hf hu fu =
      let (ahead, inside) = p.moves it in
      (
        e,
        j,
        0,
        omega arith,
        inside,
        ahead,
        p.gives u it hu fu,
        λ n. let same : 0 + n ≡ n = omega arith in rw same refl,
      )
  Chain-run first u (more {l = l} {r} {j} {k} first' t op c hf' h o it) hf hu fu =
      let (e0, j0, m, small, inside, far, go, run) =
        Chain-run first t c hf h.found (ops t.kind op o) in
      let (ahead, inside') = p.moves it in
      (
        e0,
        j0,
        suc m,
        omega arith,
        inside',
        omega arith,
        go,
        λ n.
            let same : first' ≡ first = some-injective (sym hf' ∙ hf) in
            let count : suc m + n ≡ m + suc n = omega arith in
            rw (same, count)
              (run (suc n) ∙ left_loop-step (span_of first) n l r j k t u op h o it hu fu),
      )

  -- The level gives the tree of a chain, where neither an operator of it nor one of the levels below
  -- comes next.
  pub left_assoc-Chain :
      (fuel : ℕ) {i j : ℕ} {e : Expr} (first u : Token)
      → length s.tokens < fuel
      → Chain s.tokens op_of Item i e j
      → token_at i s.tokens ≡ some first
      → token_at j s.tokens ≡ some u
      → Follow u.kind
      → op_of u.kind ≡ none
      → left_assoc fuel op_of operand (at_pos s i) ≡ parsed e (at_pos s j)
  unfolding left_assoc current_span on_current pure ◌>>=◌
  left_assoc-Chain fuel {j = j} {e} first u h c hf hu fu o =
      let (e0, j0, k, small, inside, far, go, run) = Chain-run first u c hf hu fu in
      let n = fuel - k - 1 in
      let count : fuel ≡ k + suc n = omega arith in
      rw hf (
        rw go
          (rw count (run (suc n) ∙ left_loop-stop s op_of operand (span_of first) n e j u hu o)))

  pub Chain-moves :
      {i j : ℕ} {e : Expr} → Chain s.tokens op_of Item i e j → (i < j) × (j ≤ length s.tokens)
  Chain-moves (one it) = p.moves it
  Chain-moves (more first t op c hf h o it) =
      let (far, inside) = Chain-moves c in
      let (ahead, inside') = p.moves it in (omega arith, inside')

pub token_at-inside :
    (i : ℕ) (ts : List Token) → i < length ts → (t : Token) × (token_at i ts ≡ some t)
unfolding token_at
token_at-inside i [] h = absurd (omega arith)
token_at-inside zero (t ∷ ts) h = (t, refl)
token_at-inside (suc i) (t ∷ []) h = absurd (omega arith)
token_at-inside (suc i) (t ∷ u ∷ ts) h = token_at-inside i (u ∷ ts) (omega arith)

-- What may follow the items of a level, and is no operator of it.
pub record FollowsLevel (op_of : TokenKind → Option BinOperator) (Follow : TokenKind → Type 0)
    (k : TokenKind) : Type 0 where
  pub below : Follow k
  pub no_op : op_of k ≡ none

-- A level of operators promises for chains what its operand does for the items.
pub left_assoc-Parses :
    (s : Parser) (op_of : TokenKind → Option BinOperator) (operand : Parse Expr)
    (Item : ℕ → Expr → ℕ → Type 0) (Follow : TokenKind → Type 0) (fuel : ℕ)
    → Parses s operand Item Follow
    → ((k : TokenKind) (op : BinOperator) → op_of k ≡ some op → Follow k)
    → length s.tokens < fuel
    → Parses s
        (left_assoc fuel op_of operand)
        (Chain s.tokens op_of Item)
        (FollowsLevel op_of Follow)
left_assoc-Parses s op_of operand Item Follow fuel p ops h = record {
  gives = λ {i} {e} {j} t c hu f.
      let (far, inside) = Chain-moves s op_of operand Item Follow p ops c in
      let (first, hf) = token_at-inside i s.tokens (omega arith) in
      left_assoc-Chain s op_of operand Item Follow p ops fuel first t h c hf hu f.below f.no_op;
  moves = λ {i} {e} {j} c. Chain-moves s op_of operand Item Follow p ops c;
}

-- A level promises for the items of its operand what the operand does, where no operator follows.
pub left_assoc-pass :
    (s : Parser) (op_of : TokenKind → Option BinOperator) (operand : Parse Expr)
    (Item : ℕ → Expr → ℕ → Type 0) (Follow : TokenKind → Type 0) (fuel n : ℕ)
    → fuel ≡ suc n
    → Parses s operand Item Follow
    → Parses s (left_assoc fuel op_of operand) Item (FollowsLevel op_of Follow)
unfolding left_assoc current_span on_current pure ◌>>=◌
left_assoc-pass s op_of operand Item Follow fuel n known p = record {
  gives = λ {i} {e} {j} t it hu f.
      let (far, inside) = p.moves it in
      let (first, hf) = token_at-inside i s.tokens (omega arith) in
      rw (known, hf)
        (rw (p.gives t it hu f.below)
          (left_loop-stop s op_of operand (span_of first) n e j t hu f.no_op));
  moves = λ {i} {e} {j} it. p.moves it;
}
