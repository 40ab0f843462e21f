-- ===== src/Tests/Task.antt =====
-- An example of the theorem on educrtos/task.c.
use rtas2021_artifact.Base.{arith, inl, [], ◌∷◌, refl, Returns}
use rtas2021_artifact.Task.{test_userspace}
use rtas2021_artifact.Task.Period.{IsPeriodic}
use rtas2021_artifact.Task.Periodic.{test_userspace-IsPeriodic}

-- Task 1 runs five rounds.
test_userspace-IsPeriodic_example :
    Returns (IsPeriodic 3000000000 5) (test_userspace 1 (b'1' ∷ []) 0 1 5 8)
test_userspace-IsPeriodic_example =
    test_userspace-IsPeriodic 1 (b'1' ∷ []) 0 (omega arith) refl 1 5 8 (inl (ground arith))
      (omega arith) (omega arith)
