-- ===== src/Runtime/Fiber/Registry.antt =====
-- `FiberRegistry` of fiber.rs. The counter of fiber ids is a part of the state. Where `resume` fails
-- inside the fiber, the registry is as the code leaves it.
use jdruby.Base.{
  ℕ, ◌+◌, ◌%◌, ◌^◌, Bool, true, false, Option, some, none, List, [], ◌∷◌, ◌==◌, length, ◌||◌,
  if◌then◌else◌,
}
use jdruby.Base.Assoc.{lookup, insert}
use jdruby.Base.Keys.{nat_eq}
use jdruby.Runtime.Fiber
use jdruby.Runtime.Fiber.{
  FiberState, resumed, dead, FiberError, invalid_operation, Result, ok, err, Closure, yield_value,
}

pub record FiberRegistry (V : Type 0) : Type 0 where
  pub current : Option ℕ
  pub fibers : List (ℕ × Fiber.Fiber V)
  pub root_id : Option ℕ
  pub counter : ℕ

abbrev pub same_id : Option ℕ → Option ℕ → Bool
same_id (some a) (some b) = a == b
same_id none none = true
same_id _ _ = false

-- `FIBER_ID_COUNTER.fetch_add(1)`
abbrev pub bumped : ℕ → ℕ
bumped n = (n + 1) % 2 ^ 64

module _ {V : Type 0} where
  abbrev pub empty : ℕ → FiberRegistry V
  empty counter = record { current = none; fibers = []; root_id = none; counter = counter }

  unfoldable pub init : FiberRegistry V → FiberRegistry V
  init r =
      let root : Fiber.Fiber V = record {
        id = r.counter;
        state = resumed;
        parent = none;
        transferred = false;
        locals = [];
        last_value = none;
        return_value = none;
        started = true;
        entry = none;
      } in
      record {
        current = some r.counter;
        fibers = insert r.counter root r.fibers;
        root_id = some r.counter;
        counter = bumped r.counter;
      }

  unfoldable pub is_root : FiberRegistry V → Bool
  is_root r = same_id r.current r.root_id

  unfoldable pub spawn : Closure V → FiberRegistry V → ℕ × FiberRegistry V
  spawn f r = (
    r.counter,
    record r {
      fibers = insert r.counter (Fiber.new r.counter f r.current) r.fibers;
      counter = bumped r.counter;
    },
  )

  -- The registry with the fiber back in its place, and the current one after a resume: back at the
  -- caller where the fiber is dead, and where it fails left at the fiber.
  abbrev pub settle :
      ℕ → ℕ → FiberRegistry V → Result V × Fiber.Fiber V → Result V × FiberRegistry V
  settle caller id r (ok v, f) = (
    ok v,
    record r {
      fibers = insert id f r.fibers;
      current = elim f.state [ dead w ↦ some caller | _ ↦ some id ];
    },
  )
  settle caller id r (err e, f) =
      (err e, record r { fibers = insert id f r.fibers; current = some id })

  unfoldable pub resume : ℕ → V → FiberRegistry V → Result V × FiberRegistry V
  resume id val r =
      if same_id r.current (some id) then (err invalid_operation, r) else elim r.current [
        | none ↦ (err invalid_operation, r)
        | some caller ↦ elim (lookup id r.fibers) [
          | none ↦ (err invalid_operation, r)
          | some f ↦ settle caller id r (Fiber.resume val f)
        ]
      ]

  abbrev pub hand_over :
      ℕ → ℕ → FiberRegistry V → Result V × Fiber.Fiber V → Result V × FiberRegistry V
  hand_over id parent r (ok v, f) =
      (ok v, record r { fibers = insert id f r.fibers; current = some parent })
  hand_over id parent r (err e, f) = (err e, r)

  unfoldable pub yield_current : V → FiberRegistry V → Result V × FiberRegistry V
  yield_current val r = elim r.current [
    | none ↦ (err invalid_operation, r)
    | some id ↦ elim (lookup id r.fibers) [
      | none ↦ (err invalid_operation, r)
      | some f ↦ elim f.parent [
        | none ↦ (err invalid_operation, r)
        | some parent ↦ hand_over id parent r (yield_value val f)
      ]
    ]
  ]

  unfoldable pub is_alive : ℕ → FiberRegistry V → Bool
  is_alive id r = elim (lookup id r.fibers) [ none ↦ false | some f ↦ Fiber.is_alive f ]

  -- The test of `cleanup` on one entry.
  abbrev pub stays : Option ℕ → ℕ × Fiber.Fiber V → Bool
  stays root (id, f) = Fiber.is_alive f || same_id (some id) root

  unfoldable pub retain_fibers : Option ℕ → List (ℕ × Fiber.Fiber V) → List (ℕ × Fiber.Fiber V)
  retain_fibers root [] = []
  retain_fibers root (e ∷ es) =
      let rest = retain_fibers root es in if stays root e then e ∷ rest else rest

  unfoldable pub cleanup : FiberRegistry V → FiberRegistry V
  cleanup r = record r { fibers = retain_fibers r.root_id r.fibers }

  unfoldable pub count_alive : List (ℕ × Fiber.Fiber V) → ℕ
  count_alive [] = 0
  count_alive ((id, f) ∷ es) =
      let rest = count_alive es in if Fiber.is_alive f then 1 + rest else rest

  unfoldable pub count : FiberRegistry V → ℕ
  count r = length r.fibers
