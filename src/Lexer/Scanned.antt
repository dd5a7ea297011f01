-- ===== src/Lexer/Scanned.antt =====
-- crates/jdruby-lexer/src/lexer.rs: the match of `next_token`, its operators and its keywords.
use jdruby.Base.{
  ℕ, ◌≡◌, refl, ◌<◌, ◌==◌, ◌&&◌, ◌||◌, not, ltb, Bool, true, false, Option, some, none, List, [],
  ◌∷◌, if◌then◌else◌, if-both, if-either, arith, String,
}
use jdruby.Base.Assoc.{lookup}
use jdruby.Base.Keys.{nat_eq}
use jdruby.Lexer.Cursor.{Cursor, advance, peek, is_digit, is_ident_continue, between}
use jdruby.Lexer.Ahead.{Ahead-refl, Ahead-trans, peeked-Ahead, advance_while-Ahead}
use jdruby.Lexer.Token.{
  TokenKind, keyword_from_str, find_keyword, keywords, spells, class_var, instance_var,
}
use jdruby.Lexer.Operators.{
  Scanned, Follow, Branches, follow, branch, no_branch, munch, munch_in, operators, equals,
}
use jdruby.Lexer.Scan.{is_eof, scan, lex_colon, lex_at, lex_equal, lex_operator, starts_name}
use jdruby.Lexer.Literals.{
  starts_with, lex_identifier, lex_identifier_from, identifier_end, keyword_or_identifier, slice,
  lex_symbol, lex_line_comment, lex_constant, lex_quoted_symbol,
}
use jdruby.Lexer.Lexemes.{
  Lexes, lex_block_comment-Lexes, identifier_end-Ahead, lex_double_string-Lexes,
  lex_single_string-Lexes, lex_quoted_symbol-Lexes, lex_number-Lexes, lex_global_var-Lexes,
}

-- The kinds of a table of operators are not the end of the source, and its bytes not zero.
unfoldable mutual
  pub proper : Follow → Bool
  proper (follow k bs) = not (is_eof k) && proper_in bs

  pub proper_in : Branches → Bool
  proper_in no_branch = true
  proper_in (branch b f bs) = ltb 0 b && proper f && proper_in bs

pub and_split : (a b : Bool) → (a && b) ≡ true → (a ≡ true) × (b ≡ true)
and_split true b h = (refl, h)
and_split false b h = absurd cc

mutual
  unfolding munch munch_in proper proper_in

  pub munch-Lexes : (f : Follow) (c : Cursor) → proper f ≡ true → Lexes c (munch f c)
  munch-Lexes (follow k bs) c h =
      let hs = and_split (not (is_eof k)) (proper_in bs) h in
      munch_in-Lexes bs k c (ground arith) hs.1

  pub munch_in-Lexes :
      (bs : Branches) (k : TokenKind) (c : Cursor)
      → is_eof k ≡ false
      → proper_in bs ≡ true
      → Lexes c (munch_in bs k c)
  munch_in-Lexes no_branch k c e h = (e, Ahead-refl c)
  munch_in-Lexes (branch b f bs) k c e h =
      let h0 = and_split (ltb 0 b && proper f) (proper_in bs) h in
      let h1 = and_split (ltb 0 b) (proper f) h0.0 in
      let longer = munch-Lexes f (advance c) h1.1 in
      if-either (Lexes c) (peek c == b)
        (λ q. (longer.0, Ahead-trans (peeked-Ahead c (ground arith)) longer.1))
        (λ _. munch_in-Lexes bs k c e h0.1)

-- Every operator of a table passes the test that all of its entries pass.
unfoldable all_proper : List (ℕ × Follow) → Bool
all_proper [] = true
all_proper ((b, f) ∷ ops) = proper f && all_proper ops

proper-lookup :
    (ch : ℕ) (ops : List (ℕ × Follow)) (f : Follow)
    → all_proper ops ≡ true
    → lookup ch ops ≡ some f
    → proper f ≡ true
unfolding lookup all_proper
proper-lookup ch [] f h e = cc
proper-lookup ch ((b, g) ∷ ops) f h e = ground (arith, proper-lookup ch ops f)

lex_operator-Lexes : (ch : ℕ) (a : Cursor) → Lexes a (lex_operator ch a (lookup ch operators))
unfolding lookup all_proper proper proper_in
lex_operator-Lexes ch a = found (lookup ch operators) refl
  where
    found : (o : Option Follow) → lookup ch operators ≡ o → Lexes a (lex_operator ch a o)
    found none e = (refl, Ahead-refl a)
    found (some f) e = munch-Lexes f a (proper-lookup ch operators f refl e)

abbrev pub all_satisfy : (TokenKind → Bool) → List (String × TokenKind) → Bool
all_satisfy p [] = true
all_satisfy p ((w, k) ∷ ws) = p k && all_satisfy p ws

pub find_keyword-Satisfies :
    (p : TokenKind → Bool) (ws : List (String × TokenKind)) (bs : List ℕ) (k : TokenKind)
    → all_satisfy p ws ≡ true
    → find_keyword ws bs ≡ some k
    → p k ≡ true
unfolding find_keyword
find_keyword-Satisfies p [] bs k h e = cc
find_keyword-Satisfies p ((w, j) ∷ ws) bs k h e =
    let hs = and_split (p j) (all_satisfy p ws) h in
    chosen (spells bs w) e hs.0 (find_keyword-Satisfies p ws bs k hs.1)
  where
    chosen :
        {j k : TokenKind} (b : Bool) {o : Option TokenKind}
        → (if b then some j else o) ≡ some k
        → p j ≡ true
        → (o ≡ some k → p k ≡ true)
        → p k ≡ true
    chosen true e h further = cc
    chosen false e h further = further e

lex_identifier-Lexes : (s a : Cursor) → Lexes a (lex_identifier s a)
unfolding lex_identifier keyword_from_str
lex_identifier-Lexes s a =
    (kind (keyword_from_str (slice s (identifier_end a))) refl, identifier_end-Ahead a)
  where
    kind :
        (o : Option TokenKind)
        → keyword_from_str (slice s (identifier_end a)) ≡ o
        → is_eof (keyword_or_identifier o) ≡ false
    kind none e = refl
    kind (some k) e =
        let h = find_keyword-Satisfies (λ k. not (is_eof k)) keywords _ k refl e in ground arith

lex_identifier_from-Lexes :
    (k : TokenKind) (a : Cursor) → is_eof k ≡ false → Lexes a (lex_identifier_from k a)
unfolding lex_identifier_from
lex_identifier_from-Lexes k a e = (e, advance_while-Ahead is_ident_continue a)

-- Behind a byte that was peeked.
behind : (a : Cursor) (r : Scanned) → 0 < peek a → Lexes (advance a) r → Lexes a r
behind a r h p = (p.0, Ahead-trans (peeked-Ahead a h) p.1)

lex_colon-Lexes : (a : Cursor) → Lexes a (lex_colon a)
unfolding lex_symbol
lex_colon-Lexes a =
    if-either (Lexes a) (peek a == b':') (λ e. (refl, peeked-Ahead a (ground arith)))
      (λ _.
        if-either (Lexes a) (starts_name (peek a)) (λ _. (refl, identifier_end-Ahead a))
          (λ _.
            if-either (Lexes a) (peek a == b'"')
              (λ e.
                behind a (lex_quoted_symbol (advance a)) (ground arith)
                  (lex_quoted_symbol-Lexes (advance a)))
              (λ _. (refl, Ahead-refl a))))

lex_at-Lexes : (a : Cursor) → Lexes a (lex_at a)
lex_at-Lexes a =
    if-either (Lexes a) (peek a == b'@')
      (λ e.
        behind a (lex_identifier_from class_var (advance a)) (ground arith)
          (lex_identifier_from-Lexes class_var (advance a) refl))
      (λ _.
        if-both (Lexes a) (starts_name (peek a)) (lex_identifier_from-Lexes instance_var a refl)
          (refl, Ahead-refl a))

lex_equal-Lexes : (s a : Cursor) → Lexes a (lex_equal s a)
unfolding proper proper_in
lex_equal-Lexes s a =
    if-both (Lexes a)
      (not (peek a == b'=' || peek a == b'~' || peek a == b'>')
        && (a.pos == 1 || ltb 0 s.pos && s.last == b'\n')
        && starts_with "begin" a.rest)
      (lex_block_comment-Lexes a) (munch-Lexes equals a refl)

pub scan-Lexes : (ch : ℕ) (s a : Cursor) → Lexes a (scan ch s a)
unfolding scan lex_line_comment lex_constant
scan-Lexes ch s a =
    if-both (Lexes a) (ch == b'#') (refl, advance_while-Ahead (λ b. not (b == b'\n')) a)
      (if-both (Lexes a) (ch == b'"') (lex_double_string-Lexes a) (
        if-both (Lexes a) (ch == b'\'') (lex_single_string-Lexes a) (
          if-both (Lexes a) (is_digit ch) (lex_number-Lexes ch a) (
            if-both (Lexes a) (ch == b':') (lex_colon-Lexes a) (
              if-both (Lexes a) (ch == b'@') (lex_at-Lexes a) (
                if-both (Lexes a) (ch == b'$') (lex_global_var-Lexes a) (
                  if-both (Lexes a) (between b'a' b'z' ch || ch == b'_') (lex_identifier-Lexes s a)
                    (if-both (Lexes a) (between b'A' b'Z' ch)
                      (refl, advance_while-Ahead is_ident_continue a)
                      (if-both (Lexes a) (ch == b'=') (lex_equal-Lexes s a)
                        (lex_operator-Lexes ch a))))))))))
