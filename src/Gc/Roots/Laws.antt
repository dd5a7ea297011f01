-- ===== src/Gc/Roots/Laws.antt =====
-- crates/jdgc/src/roots.rs: the registered roots.
use jdruby.Base.{
  ℕ, ◌+◌, ◌<◌, ◌≤◌, ◌%◌, ◌^◌, ◌≡◌, ◌≢◌, refl, sym, true, false, Bool-cases, ◌⊎◌, ◌++◌,
  length-append, List, [], ◌∷◌, ◌==◌, leb, length, any, All, if-either, arith, inl, inr,
}
use jdruby.Base.Assoc.{insert, remove}
use jdruby.Base.Keys.{nat_eq}
use jdruby.Gc.Roots.{
  RootSet, root_table_full, invalid_pointer, duplicate_root, Registered, handle, refused, contains,
  register, unregister,
}

-- No handle and no pointer stands twice in the table.
abbrev pub Apart : List (ℕ × ℕ) → Type 0
Apart [] = Unit
Apart ((i, p) ∷ rs) = All (λ e. (e.0 ≢ i) × (e.1 ≢ p)) rs × Apart rs

-- Handles below the next one, pointers not null, all apart, and no more than the table may have.
pub record IsRootSet (r : RootSet) : Type 0 where
  pub below : All (λ e. e.0 < r.next_id) r.roots
  pub not_null : All (λ e. e.1 ≢ 0) r.roots
  pub apart : Apart r.roots
  pub fits : length r.roots ≤ r.max_roots

insert-absent :
    (i p : ℕ) (rs : List (ℕ × ℕ)) → All (λ e. e.0 < i) rs → insert i p rs ≡ rs ++ ((i, p) ∷ [])
unfolding insert
insert-absent i p [] h = refl
insert-absent i p ((j, q) ∷ rs) h = ground (arith, h.0, insert-absent i p rs h.1)

All-append {ℓ} :
    (P : ℕ × ℕ → Type ℓ) (rs : List (ℕ × ℕ)) (e : ℕ × ℕ) → All P rs → P e → All P (rs ++ (e ∷ []))
All-append P [] e h k = (k, tt)
All-append P (r ∷ rs) e h k = (h.0, All-append P rs e h.1 k)

Apart-append :
    (i p : ℕ) (rs : List (ℕ × ℕ))
    → Apart rs
    → All (λ e. (e.0 < i) × (e.1 ≢ p)) rs
    → Apart (rs ++ ((i, p) ∷ []))
Apart-append i p [] h k = (tt, tt)
Apart-append i p ((j, q) ∷ rs) h k = (
  All-append (λ e. (e.0 ≢ j) × (e.1 ≢ q)) rs (i, p) h.0
      ((λ e. ground (arith, k.0.0)), λ e. k.0.1 (sym e)),
  Apart-append i p rs h.1 k.1,
)

absent-Apart :
    (i p : ℕ) (rs : List (ℕ × ℕ))
    → any (λ e. e.1 == p) rs ≡ false
    → All (λ e. e.0 < i) rs
    → All (λ e. (e.0 < i) × (e.1 ≢ p)) rs
absent-Apart i p [] h k = tt
absent-Apart i p ((j, q) ∷ rs) h k =
    ((k.0, λ e. ground arith), absent-Apart i p rs (ground arith) k.1)

All-below : (i j : ℕ) (rs : List (ℕ × ℕ)) → i ≤ j → All (λ e. e.0 < i) rs → All (λ e. e.0 < j) rs
All-below i j [] l h = tt
All-below i j (e ∷ rs) l h = (omega (arith, l, h.0), All-below i j rs l h.1)

remove-last :
    (i p : ℕ) (rs : List (ℕ × ℕ)) → All (λ e. e.0 < i) rs → remove i (rs ++ ((i, p) ∷ [])) ≡ rs
unfolding remove
remove-last i p [] h = ground arith
remove-last i p ((j, q) ∷ rs) h = ground (arith, h.0, remove-last i p rs h.1)

-- One of the roots is this pointer.
abbrev pub Holds : ℕ → List (ℕ × ℕ) → Type 0
Holds ptr [] = ⊥
Holds ptr (e ∷ rs) = (e.1 ≡ ptr) ⊎ Holds ptr rs

-- The table has room, and the pointer is none of the roots and not null.
abbrev pub IsNew : ℕ → RootSet → Type 0
IsNew ptr r = (length r.roots < r.max_roots) × (ptr ≢ 0) × All (λ e. e.1 ≢ ptr) r.roots

-- What `register` promises: a new root behind the others, under a handle of its own, or a refusal
-- for the one reason that there is, which leaves the roots as they are.
abbrev pub Registers : ℕ → RootSet → Registered × RootSet → Type 0
Registers ptr r o =
    IsRootSet o.1
    × ((IsNew ptr r
          × (o.0 ≡ handle r.next_id)
          × (o.1.next_id ≡ r.next_id + 1)
          × (o.1.roots ≡ r.roots ++ ((r.next_id, ptr) ∷ []))
          × ((unregister r.next_id o.1).roots ≡ r.roots))
        ⊎ (((r.max_roots ≤ length r.roots) × (o ≡ (refused root_table_full, r)))
            ⊎ (((length r.roots < r.max_roots)
                  × (ptr ≡ 0)
                  × (o.0 ≡ refused invalid_pointer)
                  × (o.1.roots ≡ r.roots))
                ⊎ ((length r.roots < r.max_roots)
                    × (ptr ≢ 0)
                    × Holds ptr r.roots
                    × (o.0 ≡ refused duplicate_root)
                    × (o.1.roots ≡ r.roots)))))

contains-Holds : (ptr : ℕ) (rs : List (ℕ × ℕ)) → any (λ e. e.1 == ptr) rs ≡ true → Holds ptr rs
contains-Holds ptr [] h = absurd cc
contains-Holds ptr (e ∷ rs) h = elim (Bool-cases (e.1 == ptr)) [
  | inl here ↦ inl (ground arith)
  | inr there ↦ inr (contains-Holds ptr rs (ground arith))
]

absent-All :
    (ptr : ℕ) (rs : List (ℕ × ℕ)) → any (λ e. e.1 == ptr) rs ≡ false → All (λ e. e.1 ≢ ptr) rs
absent-All ptr [] h = tt
absent-All ptr (e ∷ rs) h = (λ q. ground arith, absent-All ptr rs (ground arith))

registered-IsRootSet :
    (ptr : ℕ) (r : RootSet)
    → IsRootSet r
    → r.next_id + 1 < 2 ^ 64
    → length r.roots < r.max_roots
    → ptr ≢ 0
    → contains ptr r ≡ false
    → IsRootSet (record r {
      next_id = (r.next_id + 1) % 2 ^ 64;
      roots = r.roots ++ ((r.next_id, ptr) ∷ []);
    })
unfolding contains
registered-IsRootSet ptr r w l f n c = record {
  below =
      All-append _ r.roots (r.next_id, ptr)
        (All-below r.next_id _ r.roots (omega (arith, l)) w.below) (omega (arith, l));
  not_null = All-append (λ e. e.1 ≢ 0) r.roots (r.next_id, ptr) w.not_null n;
  apart = Apart-append r.next_id ptr r.roots w.apart (absent-Apart r.next_id ptr r.roots c w.below);
  fits = omega (arith, f, length-append r.roots ((r.next_id, ptr) ∷ []));
}

taken-IsRootSet :
    (r : RootSet)
    → IsRootSet r
    → r.next_id + 1 < 2 ^ 64
    → IsRootSet (record r { next_id = (r.next_id + 1) % 2 ^ 64 })
taken-IsRootSet r w l = record {
  below = All-below r.next_id _ r.roots (omega (arith, l)) w.below;
  not_null = w.not_null;
  apart = w.apart;
  fits = w.fits;
}

-- `register` on every branch. Where the table has room and the pointer is not null and none of the
-- roots, it goes behind them under a handle that no other root has, the next handle is one more, and
-- `unregister` of the handle gives the roots back. A full table is refused as full and nothing
-- changes; with room, a null pointer is refused as invalid and one of the roots as a duplicate, and
-- the roots stay. In all cases no handle and no pointer is twice in the table, none is null, and
-- there are at most as many as the table may have.
pub register-Registers :
    (ptr : ℕ) (r : RootSet)
    → IsRootSet r
    → r.next_id + 1 < 2 ^ 64
    → Registers ptr r (register ptr r)
unfolding register unregister contains
register-Registers ptr r w l =
    let taken = taken-IsRootSet r w l in
    let last = insert-absent r.next_id ptr r.roots w.below in
    if-either (Registers ptr r) (leb r.max_roots (length r.roots))
      (λ full. (w, inr (inl (ground arith, refl))))
      (λ room.
        if-either (Registers ptr r) (ptr == 0)
          (λ null. (taken, inr (inr (inl (ground arith, ground arith, refl, refl)))))
          (λ nonzero.
            if-either (Registers ptr r) (contains ptr r)
              (λ there. (
                taken,
                inr (
                    inr (
                      inr (
                        ground arith,
                        (λ e. ground arith),
                        contains-Holds ptr r.roots there,
                        refl,
                        refl,
                      ))),
              ))
              (λ absent. rw last (
                registered-IsRootSet ptr r w l (ground arith) (λ e. ground arith) absent,
                inl (
                  (ground arith, (λ e. ground arith), absent-All ptr r.roots absent),
                  refl,
                  omega (arith, l),
                  refl,
                  remove-last r.next_id ptr r.roots w.below,
                ),
              ))))
