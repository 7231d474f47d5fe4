-- ===== src/Lifecycle/Returns.antt =====
-- internal/server/lifecycle/runner.go: what Run returns.
use scalable_e_commerce_plat.Base.{
  ℕ, ◌+◌, ◌≡◌, ◌↔◌, ◌++◌, inl, inr, refl, sym, subst, Bool, true, Option, none, some, List, [], ◌∷◌,
  length, length-append, Option-cases, All, Error, arith,
}
use scalable_e_commerce_plat.Lifecycle.{
  Phase, running, sent, leaving, over, Main, polling, draining, returned, State, start, Moves, here,
  there, IsOver, IsDone, Step, finishes, fails, cancels, leaves, stops, takes, sees_stop, sees_done,
  drains_error, drains, polls_error, polls_nothing, Runs, stay, step,
}

-- How many services have failed.
abbrev pub fault : Phase → ℕ
fault running = 0
fault (sent e) = 1
fault (leaving none) = 0
fault (leaving (some e)) = 1
fault (over none) = 0
fault (over (some e)) = 1

abbrev pub failures : List Phase → ℕ
failures [] = 0
failures (p ∷ ps) = fault p + failures ps

-- The errors that the caller has taken from the queue.
abbrev taken : Main → ℕ
taken (draining (some e)) = 1
taken (returned (some e)) = 1
taken _ = 0

-- Past the wait for `done`.
abbrev IsPast : Main → Type 0
IsPast polling = Unit
IsPast (returned r) = Unit
IsPast _ = ⊥

abbrev pub IsWaiting : Main → Type 0
IsWaiting (draining r) = Unit
IsWaiting _ = ⊥

record IsInOrder (s : State) : Type 0 where
  kept : failures s.services ≡ length s.queue + taken s.main
  done : IsPast s.main → IsDone s
  told : IsWaiting s.main → s.cancelled ≡ true
  drained : s.main ≡ returned none → s.queue ≡ []

Moves-failures :
    (p q : Phase) (ps qs : List Phase)
    → Moves p q ps qs
    → failures ps + fault q ≡ failures qs + fault p
Moves-failures p q _ _ (here {ps}) = omega arith
Moves-failures p q _ _ (there {x} {ps} {qs} m) = omega (arith, Moves-failures p q ps qs m)

-- A goroutine that moves was not over, so that the caller is not past the wait.
Moves-IsOver : (p q : Phase) (ps qs : List Phase) → Moves p q ps qs → All IsOver ps → IsOver p
Moves-IsOver p q _ _ here h = h.0
Moves-IsOver p q _ _ (there {x} {ps} {qs} m) h = Moves-IsOver p q ps qs m h.1

Moves-IsInOrder :
    (s : State) (p q : Phase) (ps : List Phase) (queue : List Error) (cancelled : Bool)
    → Moves p q s.services ps
    → ¬ IsOver p
    → length queue + fault p ≡ length s.queue + fault q
    → (s.cancelled ≡ true → cancelled ≡ true)
    → IsInOrder s
    → IsInOrder (record s { services = ps; queue = queue; cancelled = cancelled })
Moves-IsInOrder s p q ps queue cancelled m busy sent_ told i = record {
  kept = omega (arith, i.kept, Moves-failures p q s.services ps m);
  done = λ h. absurd (busy (Moves-IsOver p q s.services ps m (i.done h)));
  told = λ h. told (i.told h);
  drained =
      λ h. absurd (busy (Moves-IsOver p q s.services ps m (i.done (subst IsPast (sym h) tt))));
}

Step-IsInOrder : (s t : State) → Step s t → IsInOrder s → IsInOrder t
Step-IsInOrder s _ (finishes m) i =
    Moves-IsInOrder s _ _ _ s.queue s.cancelled m (λ h. h) refl (λ h. h) i
Step-IsInOrder s _ (fails e m) i =
    Moves-IsInOrder s _ _ _ (s.queue ++ (e ∷ [])) s.cancelled m (λ h. h)
      (omega (arith, length-append s.queue (e ∷ []))) (λ h. h) i
Step-IsInOrder s _ (cancels e m) i =
    Moves-IsInOrder s _ _ _ s.queue true m (λ h. h) refl (λ h. refl) i
Step-IsInOrder s _ (leaves none m) i =
    Moves-IsInOrder s _ _ _ s.queue s.cancelled m (λ h. h) refl (λ h. h) i
Step-IsInOrder s _ (leaves (some e) m) i =
    Moves-IsInOrder s _ _ _ s.queue s.cancelled m (λ h. h) refl (λ h. h) i
Step-IsInOrder s _ (stops h) i = record {
  kept = i.kept;
  done = i.done;
  told = λ h. refl;
  drained = i.drained;
}
Step-IsInOrder s _ (takes e q h k) i = record {
  kept = ground (arith, h, k, i.kept);
  done = λ p. absurd p;
  told = λ p. refl;
  drained = λ p. cc p;
}
Step-IsInOrder s _ (sees_stop h k) i = record {
  kept = ground (arith, h, k, i.kept);
  done = λ p. absurd p;
  told = λ p. refl;
  drained = λ p. cc p;
}
Step-IsInOrder s _ (sees_done h d) i = record {
  kept = ground (arith, h, i.kept);
  done = λ p. d;
  told = λ p. absurd p;
  drained = λ p. cc p;
}
Step-IsInOrder s _ (drains_error e h d) i = record {
  kept = ground (arith, h, i.kept);
  done = λ p. d;
  told = λ p. absurd p;
  drained = λ p. cc p;
}
Step-IsInOrder s _ (drains h d) i = record {
  kept = ground (arith, h, i.kept);
  done = λ p. d;
  told = λ p. absurd p;
  drained = λ p. cc p;
}
Step-IsInOrder s _ (polls_error e q h k) i = record {
  kept = ground (arith, h, k, i.kept);
  done = λ p. i.done (subst IsPast (sym h) tt);
  told = λ p. absurd p;
  drained = λ p. cc p;
}
Step-IsInOrder s _ (polls_nothing h k) i = record {
  kept = ground (arith, h, k, i.kept);
  done = λ p. i.done (subst IsPast (sym h) tt);
  told = λ p. absurd p;
  drained = λ p. k;
}

Runs-IsInOrder : (n : ℕ) (s t : State) → Runs n s t → IsInOrder s → IsInOrder t
Runs-IsInOrder _ s _ stay i = i
Runs-IsInOrder _ s u (step {n} {t = t} e r) i = Runs-IsInOrder n t u r (Step-IsInOrder s t e i)

failures-running : (ps : List Phase) → All (λ p. p ≡ running) ps → failures ps ≡ 0
failures-running [] h = refl
failures-running (p ∷ ps) h = ground (arith, h.0, failures-running ps h.1)

start-IsInOrder : (ps : List Phase) → All (λ p. p ≡ running) ps → IsInOrder (start ps)
unfolding start
start-IsInOrder [] h = record {
  kept = refl;
  done = λ p. tt;
  told = λ p. absurd p;
  drained = λ p. refl;
}
start-IsInOrder (p ∷ ps) h = record {
  kept = failures-running (p ∷ ps) h;
  done = λ q. absurd q;
  told = λ q. absurd q;
  drained = λ q. refl;
}

-- In every interleaving of the goroutines of Run, the services being told to stop comes before the
-- wait for them; and once Run has returned, every service's goroutine is over, and what it has
-- returned is nil exactly when no service failed.
pub Runs-returns :
    (ps : List Phase) (n : ℕ) (s : State)
    → All (λ p. p ≡ running) ps
    → Runs n (start ps) s
    → (IsWaiting s.main → s.cancelled ≡ true)
      × ((r : Option Error)
          → s.main ≡ returned r
          → IsDone s × ((r ≡ none) ↔ (failures s.services ≡ 0)))
Runs-returns ps n s h r =
    let i = Runs-IsInOrder n (start ps) s r (start-IsInOrder ps h) in
    (
      i.told,
      λ x e. (
        i.done (subst IsPast (sym e) tt),
        (
          λ f. ground (arith, i.kept, e, f, i.drained),
          λ f. elim (Option-cases x) [
            | inl g ↦ g
            | inr (y, g) ↦ absurd (ground (arith, i.kept, e, f, g))
          ],
        ),
      ),
    )
