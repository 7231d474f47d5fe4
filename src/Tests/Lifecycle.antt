-- ===== src/Tests/Lifecycle.antt =====
-- A service that fails beside one that stops when it is told to.
use scalable_e_commerce_plat.Base.{
  ◌≡◌, ◌≤◌, ◌↔◌, ◌⊎◌, refl, true, false, Option, some, none, List, [], ◌∷◌, Error, new_error,
}
use scalable_e_commerce_plat.Lifecycle.{
  Phase, running, over, returned, State, start, here, there, IsDone, Step, finishes, fails, cancels,
  leaves, takes, drains_error, Runs, stay, step,
}
use scalable_e_commerce_plat.Lifecycle.Progress.{Runs-ends}
use scalable_e_commerce_plat.Lifecycle.Returns.{failures, IsWaiting, Runs-returns}

abbrev servers : List Phase
servers = running ∷ running ∷ []

abbrev problem : Error
problem = new_error "address in use"

abbrev end_ : State
end_ = record {
  services = over (some problem) ∷ over none ∷ [];
  queue = [];
  cancelled = true;
  stopped = false;
  main = returned (some problem);
}

-- The first server fails; the caller takes its error before `cancel` is called.
failing_run : Runs 7 (start servers) end_
unfolding start
failing_run = step (fails problem here) (
    step (takes problem [] refl refl) (
      step (cancels problem here) (
        step (leaves (some problem) here) (
          step (finishes (there here)) (
            step (leaves none (there here))
              (step (drains_error problem refl (tt, (tt, tt))) stay))))))

Runs-ends_example :
    (7 ≤ 10) × (((r : Option Error) × (end_.main ≡ returned r)) ⊎ ((t : State) × Step end_ t))
Runs-ends_example = Runs-ends servers 7 end_ (refl, (refl, tt)) failing_run

Runs-returns_example :
    (IsWaiting end_.main → end_.cancelled ≡ true)
    × ((r : Option Error)
        → end_.main ≡ returned r
        → IsDone end_ × ((r ≡ none) ↔ (failures end_.services ≡ 0)))
Runs-returns_example = Runs-returns servers 7 end_ (refl, (refl, tt)) failing_run
