-- ===== src/Runtime/Fiber.antt =====
-- crates/jdruby-runtime/src/fiber.rs: fibers and their registry. A fiber's stack, which only the
-- system's allocator fills, is left out. The entry, a closure, is a function from `Unit` to a value.
-- Where `resume` uses its value a second time after a move, the value is taken to be copied.
pub mod Registry
pub mod Laws
mod Tests
use jdruby.Base.{ℕ, String, Bool, true, false, Option, some, none, List, [], if◌then◌else◌}
use jdruby.Base.Assoc.{lookup, insert}
use jdruby.Base.Keys.{string_eq}

-- `Box<dyn FnOnce() -> RubyValue>`
abbrev pub Closure : Type 0 → Type 0
Closure V = Unit {0} → V

pub data FiberState (V : Type 0) : Type 0 where
  created resumed suspended : FiberState V
  dead : V → FiberState V

pub data FiberError : Type 0 where
  already_resumed dead_fiber already_transferred invalid_operation stack_overflow : FiberError

-- `Result<A, FiberError>`
pub data Result (A : Type 0) : Type 0 where
  ok : A → Result A
  err : FiberError → Result A

pub record Fiber (V : Type 0) : Type 0 where
  pub id : ℕ
  pub state : FiberState V
  pub parent : Option ℕ
  pub transferred : Bool
  pub locals : List (String × V)
  pub last_value : Option V
  pub return_value : Option V
  pub started : Bool
  pub entry : Option (Closure V)

module _ {V : Type 0} where
  -- `Fiber::new` with the id that the counter gives.
  unfoldable pub new : ℕ → Closure V → Option ℕ → Fiber V
  new id f parent = record {
    id = id;
    state = created;
    parent = parent;
    transferred = false;
    locals = [];
    last_value = none;
    return_value = none;
    started = false;
    entry = some f;
  }

  unfoldable pub complete : V → Fiber V → Fiber V
  complete value f = record f { state = dead value; return_value = some value }

  -- The first branch of `resume`, on the taken entry.
  abbrev pub start : V → Option (Closure V) → Fiber V → Result V × Fiber V
  start val (some entry) f = (
    ok (entry tt),
    complete (entry tt)
        (record f { last_value = some val; state = resumed; started = true; entry = none }),
  )
  start val none f = (
    err invalid_operation,
    record f { last_value = some val; state = resumed; started = true; entry = none },
  )

  -- `resume` by the state that it matches.
  abbrev pub resume_in : V → FiberState V → Fiber V → Result V × Fiber V
  resume_in val created f = start val f.entry f
  resume_in val suspended f = (ok val, record f { last_value = some val; state = dead val })
  resume_in val resumed f = (err already_resumed, f)
  resume_in val (dead v) f = (err dead_fiber, f)

  unfoldable pub resume : V → Fiber V → Result V × Fiber V
  resume val f = resume_in val f.state f

  unfoldable pub transfer : V → Fiber V → Result V × Fiber V
  transfer val f =
      if f.transferred
      then (err already_transferred, f)
      else resume val (record f { transferred = true })

  abbrev pub yield_in : V → FiberState V → Fiber V → Result V × Fiber V
  yield_in val resumed f = (ok val, record f { state = suspended; last_value = some val })
  yield_in val _ f = (err invalid_operation, f)

  unfoldable pub yield_value : V → Fiber V → Result V × Fiber V
  yield_value val f = yield_in val f.state f

  abbrev pub alive_in : FiberState V → Bool
  alive_in created = true
  alive_in suspended = true
  alive_in _ = false

  unfoldable pub is_alive : Fiber V → Bool
  is_alive f = alive_in f.state

  unfoldable pub set_local : String → V → Fiber V → Fiber V
  set_local name value f = record f { locals = insert name value f.locals }

  unfoldable pub get_local : String → Fiber V → Option V
  get_local name f = lookup name f.locals
