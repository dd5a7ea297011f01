-- ===== src/Gc/Roots/Stack.antt =====
-- crates/jdgc/src/roots.rs: the conservative scan of a stack.
use jdruby.Base.{
  ℕ, zero, suc, ◌+◌, ◌-◌, ◌/◌, ◌<◌, ◌≡◌, refl, not, some, List, [], ◌∷◌, ltb, retain, if-either,
  arith,
}
use jdruby.Gc.Roots.{looks_like_heap_pointer, scan_from, scan_stack}

-- So many words of the stack from the address `ptr` on.
abbrev pub words : ℕ → (ℕ → ℕ) → ℕ → List ℕ
words zero stack ptr = []
words (suc n) stack ptr = stack ptr ∷ words n stack (ptr + 8)

-- The 8-byte steps from one address to another.
abbrev pub steps : ℕ → ℕ → ℕ
steps ptr stack_top = (stack_top - ptr + 7) / 8

scan_from-words :
    (n : ℕ) (stack : ℕ → ℕ) (ptr stack_top : ℕ)
    → stack_top - ptr < n
    → scan_from n stack ptr stack_top
      ≡ some (retain looks_like_heap_pointer (words (steps ptr stack_top) stack ptr))
unfolding scan_from
scan_from-words zero stack ptr stack_top h = absurd (omega (arith, h))
scan_from-words (suc n) stack ptr stack_top h =
    if-either
      (λ o. o ≡ some (retain looks_like_heap_pointer (words (steps ptr stack_top) stack ptr)))
      (not (ltb ptr stack_top))
      (λ e. let none_left : steps ptr stack_top ≡ 0 = ground arith in rw none_left refl)
      (λ e.
        let one_more : steps ptr stack_top ≡ suc (steps (ptr + 8) stack_top) = ground arith in
        let further = scan_from-words n stack (ptr + 8) stack_top (ground arith) in
        rw (one_more, further) (ground arith))

-- `scan_stack` ends. It gives, in the order of their addresses, the words that look like pointers
-- among those at every eighth byte from the bottom of the stack to its top, and no others.
scan_stack-words :
    (stack : ℕ → ℕ) (stack_bottom stack_top : ℕ)
    → scan_stack stack stack_bottom stack_top
      ≡ some
          (retain looks_like_heap_pointer (words (steps stack_bottom stack_top) stack stack_bottom))
unfolding scan_stack
scan_stack-words stack stack_bottom stack_top =
    scan_from-words (suc (stack_top - stack_bottom)) stack stack_bottom stack_top (omega arith)
