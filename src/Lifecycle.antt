-- ===== src/Lifecycle.antt =====
-- internal/server/lifecycle/runner.go: Run, as the steps that its goroutines take in any order.
pub mod Progress
pub mod Returns
use scalable_e_commerce_plat.Base.{
  ℕ, suc, ◌+◌, ◌≡◌, Bool, true, false, Option, none, some, List, [], ◌∷◌, ◌++◌, All, Error,
}

-- A service's goroutine: in `service.Run`; between the send of its error and `cancel`; before
-- `wg.Done`; and over. The last two keep the error, if there was one.
pub data Phase : Type 0 where
  running : Phase
  sent : Error → Phase
  leaving over : Option Error → Phase

-- The caller of Run: in the first select; waiting for `done` with the error that it has taken, or
-- because `ctx` is done; in the last select; and back, with what Run returns.
pub data Main : Type 0 where
  selecting polling : Main
  draining returned : Option Error → Main

-- `queue` is `errCh`, which holds an error of each service, so that no send blocks; `cancelled` is
-- about `runCtx`, `stopped` about `ctx`.
pub record State : Type 0 where
  pub services : List Phase
  pub queue : List Error
  pub cancelled : Bool
  pub stopped : Bool
  pub main : Main

unfoldable pub start : List Phase → State
start [] = record {
  services = [];
  queue = [];
  cancelled = false;
  stopped = false;
  main = returned none;
}
start (p ∷ ps) = record {
  services = p ∷ ps;
  queue = [];
  cancelled = false;
  stopped = false;
  main = selecting;
}

-- One of the goroutines goes from a phase to another.
pub data Moves (p q : Phase) : List Phase → List Phase → Type 0 where
  here : {ps : List Phase} → Moves p q (p ∷ ps) (q ∷ ps)
  there : {x : Phase} {ps qs : List Phase} → Moves p q ps qs → Moves p q (x ∷ ps) (x ∷ qs)

abbrev pub IsOver : Phase → Type 0
IsOver (over r) = Unit
IsOver _ = ⊥

-- `done` is closed once every goroutine has called `wg.Done`.
abbrev pub IsDone : State → Type 0
IsDone s = All IsOver s.services

pub data Step : State → State → Type 0 where
  finishes :
      {s : State} {ps : List Phase}
      → Moves running (leaving none) s.services ps
      → Step s (record s { services = ps })
  fails :
      {s : State} {ps : List Phase} (e : Error)
      → Moves running (sent e) s.services ps
      → Step s (record s { services = ps; queue = s.queue ++ (e ∷ []) })
  cancels :
      {s : State} {ps : List Phase} (e : Error)
      → Moves (sent e) (leaving (some e)) s.services ps
      → Step s (record s { services = ps; cancelled = true })
  leaves :
      {s : State} {ps : List Phase} (r : Option Error)
      → Moves (leaving r) (over r) s.services ps
      → Step s (record s { services = ps })
  stops : {s : State} → s.stopped ≡ false → Step s (record s { stopped = true; cancelled = true })
  takes :
      {s : State} (e : Error) (q : List Error)
      → s.main ≡ selecting
      → s.queue ≡ e ∷ q
      → Step s (record s { queue = q; cancelled = true; main = draining (some e) })
  sees_stop :
      {s : State}
      → s.main ≡ selecting
      → s.stopped ≡ true
      → Step s (record s { cancelled = true; main = draining none })
  sees_done : {s : State} → s.main ≡ selecting → IsDone s → Step s (record s { main = polling })
  drains_error :
      {s : State} (e : Error)
      → s.main ≡ draining (some e)
      → IsDone s
      → Step s (record s { main = returned (some e) })
  drains : {s : State} → s.main ≡ draining none → IsDone s → Step s (record s { main = polling })
  polls_error :
      {s : State} (e : Error) (q : List Error)
      → s.main ≡ polling
      → s.queue ≡ e ∷ q
      → Step s (record s { queue = q; cancelled = true; main = returned (some e) })
  polls_nothing :
      {s : State}
      → s.main ≡ polling
      → s.queue ≡ []
      → Step s (record s { cancelled = true; main = returned none })

-- A run of so many steps.
pub data Runs : ℕ → State → State → Type 0 where
  stay : {s : State} → Runs 0 s s
  step : {n : ℕ} {s t u : State} → Step s t → Runs n t u → Runs (suc n) s u
