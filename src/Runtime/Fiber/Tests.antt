-- ===== src/Runtime/Fiber/Tests.antt =====
-- The theorems on fibers at a registry with a root and one fiber.
use jdruby.Base.{ℕ, refl, some, arith}
use jdruby.Base.Assoc.{lookup, insert}
use jdruby.Runtime.Fiber
use jdruby.Runtime.Fiber.{ok, err, dead_fiber, created, dead, resume, transfer}
use jdruby.Runtime.Fiber.Registry
use jdruby.Runtime.Fiber.Registry.{FiberRegistry}
use jdruby.Runtime.Fiber.Laws.{
  step_and, no_step, by_resume, by_transfer, Later, Steps-Later, Resumes, resume-Resumes,
}

abbrev answer : Fiber.Closure ℕ
answer u = 42

abbrev fresh : Fiber.Fiber ℕ
fresh = Fiber.new 2 answer (some 1)

abbrev used : Fiber.Fiber ℕ
used = (transfer 8 (resume 7 fresh).1).1

Steps-Later_example : Later fresh used
Steps-Later_example =
    Steps-Later fresh used (step_and (by_resume 7) (step_and (by_transfer 8) no_step))

abbrev registry : FiberRegistry ℕ
registry = (Registry.spawn answer (Registry.init (Registry.empty 1))).1

resume-Resumes_example : Resumes 1 2 registry (resume 7 fresh) (Registry.resume 2 7 registry)
unfolding Registry.spawn Registry.init lookup insert Fiber.new
resume-Resumes_example = resume-Resumes 2 1 7 registry fresh refl (omega arith) refl
