-- ===== src/Runtime/Fiber/Laws.antt =====
-- The states of one fiber, and the current fiber of the registry of fiber.rs.
use jdruby.Base.{
  ℕ, ◌≡◌, ◌≢◌, refl, ◌∙◌, Bool, true, false, Option, some, none, ◌==◌, if◌then◌else◌, arith,
}
use jdruby.Base.Assoc.{lookup, lookup-insert}
use jdruby.Base.Keys.{nat_eq}
use jdruby.Runtime.Fiber
use jdruby.Runtime.Fiber.{
  FiberState, created, resumed, suspended, dead, FiberError, invalid_operation, already_resumed,
  dead_fiber, already_transferred, Result, ok, err, Closure, resume, transfer, yield_value,
  is_alive, complete, start, resume_in, yield_in,
}
use jdruby.Runtime.Fiber.Registry

-- The operations of a fiber as steps.
pub data Step {V : Type 0} : Fiber.Fiber V → Fiber.Fiber V → Type 0 where
  by_resume : {f : Fiber.Fiber V} (v : V) → Step f (resume v f).1
  by_transfer : {f : Fiber.Fiber V} (v : V) → Step f (transfer v f).1
  by_yield : {f : Fiber.Fiber V} (v : V) → Step f (yield_value v f).1

pub data Steps {V : Type 0} : Fiber.Fiber V → Fiber.Fiber V → Type 0 where
  no_step : {f : Fiber.Fiber V} → Steps f f
  step_and : {f g h : Fiber.Fiber V} → Step f g → Steps g h → Steps f h

-- What a step never changes back: a dead fiber stays dead with its value, a started one started, a
-- transferred one transferred; and the id and the parent stay.
pub record Later {V : Type 0} (f g : Fiber.Fiber V) : Type 0 where
  pub stays_dead : (v : V) → f.state ≡ dead v → g.state ≡ dead v
  pub stays_started : f.started ≡ true → g.started ≡ true
  pub stays_transferred : f.transferred ≡ true → g.transferred ≡ true
  pub same_id : g.id ≡ f.id
  pub same_parent : g.parent ≡ f.parent

module _ {V : Type 0} where
  Later-refl : (f : Fiber.Fiber V) → Later f f
  Later-refl f = record {
    stays_dead = λ v h. h;
    stays_started = λ h. h;
    stays_transferred = λ h. h;
    same_id = refl;
    same_parent = refl;
  }

  Later-trans : (f g h : Fiber.Fiber V) → Later f g → Later g h → Later f h
  Later-trans f g h a b = record {
    stays_dead = λ v e. b.stays_dead v (a.stays_dead v e);
    stays_started = λ e. b.stays_started (a.stays_started e);
    stays_transferred = λ e. b.stays_transferred (a.stays_transferred e);
    same_id = b.same_id ∙ a.same_id;
    same_parent = b.same_parent ∙ a.same_parent;
  }

  start-Later :
      (val : V) (e : Option (Closure V)) (f : Fiber.Fiber V)
      → f.state ≡ created
      → Later f (start val e f).1
  unfolding complete
  start-Later val none f h = record {
    stays_dead = λ v d. cc;
    stays_started = λ _. refl;
    stays_transferred = λ t. t;
    same_id = refl;
    same_parent = refl;
  }
  start-Later val (some c) f h = record {
    stays_dead = λ v d. cc;
    stays_started = λ _. refl;
    stays_transferred = λ t. t;
    same_id = refl;
    same_parent = refl;
  }

  resume-Later :
      (val : V) (s : FiberState V) (f : Fiber.Fiber V) → f.state ≡ s → Later f (resume_in val s f).1
  resume-Later val created f h = start-Later val f.entry f h
  resume-Later val suspended f h = record {
    stays_dead = λ v d. cc;
    stays_started = λ t. t;
    stays_transferred = λ t. t;
    same_id = refl;
    same_parent = refl;
  }
  resume-Later val resumed f h = Later-refl f
  resume-Later val (dead v) f h = Later-refl f

  yield-Later :
      (val : V) (s : FiberState V) (f : Fiber.Fiber V) → f.state ≡ s → Later f (yield_in val s f).1
  yield-Later val created f h = Later-refl f
  yield-Later val suspended f h = Later-refl f
  yield-Later val (dead v) f h = Later-refl f
  yield-Later val resumed f h = record {
    stays_dead = λ v d. cc;
    stays_started = λ t. t;
    stays_transferred = λ t. t;
    same_id = refl;
    same_parent = refl;
  }

  marked-Later : (f : Fiber.Fiber V) → Later f (record f { transferred = true })
  marked-Later f = record {
    stays_dead = λ v d. d;
    stays_started = λ t. t;
    stays_transferred = λ _. refl;
    same_id = refl;
    same_parent = refl;
  }

  either-Later :
      (f : Fiber.Fiber V) (b : Bool) (p q : Result V × Fiber.Fiber V)
      → Later f p.1
      → Later f q.1
      → Later f (if b then p else q).1
  either-Later f true p q x y = x
  either-Later f false p q x y = y

  transfer-Later : (val : V) (f : Fiber.Fiber V) → Later f (transfer val f).1
  unfolding transfer resume
  transfer-Later val f =
      let g : Fiber.Fiber V = record f { transferred = true } in
      let go =
        Later-trans f g (resume val g).1 (marked-Later f) (resume-Later val f.state g refl) in
      either-Later f f.transferred (err already_transferred, f) (resume val g) (Later-refl f) go

  Step-Later : (f g : Fiber.Fiber V) → Step f g → Later f g
  unfolding resume yield_value
  Step-Later f _ (by_resume v) = resume-Later v f.state f refl
  Step-Later f _ (by_transfer v) = transfer-Later v f
  Step-Later f _ (by_yield v) = yield-Later v f.state f refl

  -- Along every run of `resume`, `transfer` and `yield_value` on a fiber: a dead fiber stays dead
  -- with its value, a started one started and a transferred one transferred, and the id and the
  -- parent never change.
  pub Steps-Later : (f g : Fiber.Fiber V) → Steps f g → Later f g
  Steps-Later f _ no_step = Later-refl f
  Steps-Later f h (step_and {g = g} s ss) =
      Later-trans f g h (Step-Later f g s) (Steps-Later g h ss)

  abbrev pub is_dead : FiberState V → Bool
  is_dead (dead v) = true
  is_dead _ = false

  -- The registry after a fiber `f` at `id` was resumed from the fiber `caller`.
  abbrev pub Resumes :
      ℕ
      → ℕ
      → Registry.FiberRegistry V
      → Result V × Fiber.Fiber V
      → Result V × Registry.FiberRegistry V
      → Type 0
  Resumes caller id r own (ok v, s) =
      (own.0 ≡ ok v)
      × (is_dead own.1.state ≡ true)
      × (s.current ≡ some caller)
      × (lookup id s.fibers ≡ some own.1)
      × ((j : ℕ) → j ≢ id → lookup j s.fibers ≡ lookup j r.fibers)
  Resumes caller id r own (err e, s) =
      (own.0 ≡ err e)
      × (s.current ≡ some id)
      × (lookup id s.fibers ≡ some own.1)
      × ((j : ℕ) → j ≢ id → lookup j s.fibers ≡ lookup j r.fibers)

  Ends : Result V × Fiber.Fiber V → Type 0
  Ends (ok v, g) = is_dead g.state ≡ true
  Ends (err e, g) = Unit {0}

  start-Ends : (val : V) (e : Option (Closure V)) (f : Fiber.Fiber V) → Ends (start val e f)
  unfolding Ends complete
  start-Ends val none f = tt
  start-Ends val (some c) f = refl

  resume-Ends : (val : V) (s : FiberState V) (f : Fiber.Fiber V) → Ends (resume_in val s f)
  unfolding Ends
  resume-Ends val created f = start-Ends val f.entry f
  resume-Ends val suspended f = refl
  resume-Ends val resumed f = tt
  resume-Ends val (dead v) f = tt

  after_end :
      (s : FiberState V) (caller id : ℕ)
      → is_dead s ≡ true
      → elim s as (λ _. Option ℕ) [ dead w ↦ some caller | _ ↦ some id ] ≡ some caller
  after_end (dead v) caller id h = refl
  after_end created caller id h = cc
  after_end resumed caller id h = cc
  after_end suspended caller id h = cc

  settle-Resumes :
      (caller id : ℕ) (r : Registry.FiberRegistry V) (own : Result V × Fiber.Fiber V)
      → Ends own
      → Resumes caller id r own (Registry.settle caller id r own)
  unfolding Ends
  settle-Resumes caller id r (ok v, g) h = (
    refl,
    h,
    after_end g.state caller id h,
    ground (arith, lookup-insert id id g r.fibers),
    λ j d. ground (arith, lookup-insert id j g r.fibers),
  )
  settle-Resumes caller id r (err e, g) h = (
    refl,
    refl,
    ground (arith, lookup-insert id id g r.fibers),
    λ j d. ground (arith, lookup-insert id j g r.fibers),
  )

  -- The registry's `resume` of a fiber that is there and is not the current one: it answers what
  -- the fiber's own `resume` answers and keeps every other fiber; on a value that fiber is dead and
  -- the caller is current again; on an error the fiber that could not run is left as the current
  -- one.
  pub resume-Resumes :
      (id caller : ℕ) (val : V) (r : Registry.FiberRegistry V) (f : Fiber.Fiber V)
      → r.current ≡ some caller
      → caller ≢ id
      → lookup id r.fibers ≡ some f
      → Resumes caller id r (resume val f) (Registry.resume id val r)
  unfolding Registry.resume resume
  resume-Resumes id caller val r f h d at =
      let differs : caller == id ≡ false = ground arith in
      rw (h, differs, at) (settle-Resumes caller id r (resume val f) (resume-Ends val f.state f))
