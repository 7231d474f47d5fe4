-- ===== src/Lifecycle/Progress.antt =====
-- internal/server/lifecycle/runner.go: Run comes to an end.
use scalable_e_commerce_plat.Base.{
  ℕ, ◌+◌, ◌*◌, ◌≤◌, ◌<◌, ◌≡◌, ◌⊎◌, inl, inr, refl, Bool, true, false, Option, none, some, List, [],
  ◌∷◌, length, List-cases, All, Error, arith,
}
use scalable_e_commerce_plat.Lifecycle.{
  Phase, running, sent, leaving, over, Main, selecting, polling, draining, returned, State, start,
  Moves, here, there, IsOver, IsDone, Step, finishes, fails, cancels, leaves, stops, takes,
  sees_stop, sees_done, drains_error, drains, polls_error, polls_nothing, Runs, stay, step,
}

-- How many steps are left at most.
abbrev phase_steps : Phase → ℕ
phase_steps running = 3
phase_steps (sent e) = 2
phase_steps (leaving r) = 1
phase_steps (over r) = 0

abbrev main_steps : Main → ℕ
main_steps selecting = 3
main_steps (draining r) = 2
main_steps polling = 1
main_steps (returned r) = 0

abbrev services_steps : List Phase → ℕ
services_steps [] = 0
services_steps (p ∷ ps) = phase_steps p + services_steps ps

abbrev stop_steps : Bool → ℕ
stop_steps true = 0
stop_steps false = 1

abbrev steps_left : State → ℕ
steps_left s = services_steps s.services + main_steps s.main + stop_steps s.stopped

Moves-services_steps :
    (p q : Phase) (ps qs : List Phase)
    → Moves p q ps qs
    → services_steps ps + phase_steps q ≡ services_steps qs + phase_steps p
Moves-services_steps p q _ _ (here {ps}) = omega arith
Moves-services_steps p q _ _ (there {x} {ps} {qs} m) =
    omega (arith, Moves-services_steps p q ps qs m)

Step-steps_left : (s t : State) → Step s t → steps_left t < steps_left s
Step-steps_left s _ (finishes m) = ground (arith, Moves-services_steps _ _ _ _ m)
Step-steps_left s _ (fails e m) = ground (arith, Moves-services_steps _ _ _ _ m)
Step-steps_left s _ (cancels e m) = ground (arith, Moves-services_steps _ _ _ _ m)
Step-steps_left s _ (leaves r m) = ground (arith, Moves-services_steps _ _ _ _ m)
Step-steps_left s _ (stops h) = ground (arith, h)
Step-steps_left s _ (takes e q h k) = ground (arith, h)
Step-steps_left s _ (sees_stop h k) = ground (arith, h)
Step-steps_left s _ (sees_done h k) = ground (arith, h)
Step-steps_left s _ (drains_error e h k) = ground (arith, h)
Step-steps_left s _ (drains h k) = ground (arith, h)
Step-steps_left s _ (polls_error e q h k) = ground (arith, h)
Step-steps_left s _ (polls_nothing h k) = ground (arith, h)

Runs-steps_left : (n : ℕ) (s t : State) → Runs n s t → n + steps_left t ≤ steps_left s
Runs-steps_left _ s _ stay = omega arith
Runs-steps_left _ s u (step {n} {t = t} e r) =
    omega (arith, Step-steps_left s t e, Runs-steps_left n t u r)

-- What a goroutine that is not over goes on to.
abbrev next_phase : Phase → Phase
next_phase running = leaving none
next_phase (sent e) = leaving (some e)
next_phase (leaving r) = over r
next_phase (over r) = over r

abbrev is_over : Phase → Bool
is_over (over r) = true
is_over _ = false

-- Each goroutine is over, or one of them can go on.
services_progress :
    (ps : List Phase)
    → All IsOver ps
      ⊎ ((p : Phase) × (qs : List Phase) × (is_over p ≡ false) × Moves p (next_phase p) ps qs)
services_progress [] = inl tt
services_progress (running ∷ ps) = inr (running, _, refl, here)
services_progress (sent e ∷ ps) = inr (sent e, _, refl, here)
services_progress (leaving r ∷ ps) = inr (leaving r, _, refl, here)
services_progress (over r ∷ ps) = elim (services_progress ps) [
  | inl h ↦ inl (tt, h)
  | inr (p, qs, e, m) ↦ inr (p, _, e, there m)
]

moves_on :
    (s : State) (p : Phase) (qs : List Phase)
    → is_over p ≡ false
    → Moves p (next_phase p) s.services qs
    → (t : State) × Step s t
moves_on s running qs e m = (_, finishes m)
moves_on s (sent x) qs e m = (_, cancels x m)
moves_on s (leaving r) qs e m = (_, leaves r m)
moves_on s (over r) qs e m = cc e

main_moves_on :
    (s : State) (m : Main)
    → s.main ≡ m
    → IsDone s
    → ((r : Option Error) × (s.main ≡ returned r)) ⊎ ((t : State) × Step s t)
main_moves_on s selecting e d = inr (_, sees_done e d)
main_moves_on s (draining (some x)) e d = inr (_, drains_error x e d)
main_moves_on s (draining none) e d = inr (_, drains e d)
main_moves_on s polling e d = elim (List-cases s.queue) [
  | inl h ↦ inr (_, polls_nothing e h)
  | inr (x, q, h) ↦ inr (_, polls_error x q e h)
]
main_moves_on s (returned r) e d = inl (r, e)

services_steps-running :
    (ps : List Phase) → All (λ p. p ≡ running) ps → services_steps ps ≡ 3 * length ps
services_steps-running [] h = refl
services_steps-running (p ∷ ps) h = ground (arith, h.0, services_steps-running ps h.1)

start-steps_left :
    (ps : List Phase) → All (λ p. p ≡ running) ps → steps_left (start ps) ≤ 3 * length ps + 4
unfolding start
start-steps_left [] h = omega arith
start-steps_left (p ∷ ps) h = omega (arith, services_steps-running (p ∷ ps) h)

-- An execution of Run with n services takes at most 3 n + 4 steps, and at each of its states Run
-- has returned or a further step can be taken, a service in its own Run being able to end.
pub Runs-ends :
    (ps : List Phase) (n : ℕ) (s : State)
    → All (λ p. p ≡ running) ps
    → Runs n (start ps) s
    → (n ≤ 3 * length ps + 4)
      × (((r : Option Error) × (s.main ≡ returned r)) ⊎ ((t : State) × Step s t))
Runs-ends ps n s h r = (
  omega (arith, start-steps_left ps h, Runs-steps_left n (start ps) s r),
  elim (services_progress s.services) [
    | inl d ↦ main_moves_on s s.main refl d
    | inr (p, qs, e, m) ↦ inr (moves_on s p qs e m)
  ],
)
