-- ===== src/InactivityTimer/Firing.antt =====
-- The inactivity timer (node/src/inactivity_timer.rs) sends the signal when it is polled after quiet.
use lexe_public.Base.{
  ℕ, ◌+◌, ◌≤◌, Bool, true, false, List, [], ◌∷◌, ◌++◌, ◌≡◌, refl, inl, inr, leb, Bool-cases, arith,
}
use lexe_public.InactivityTimer.{
  TryRecv, received, empty, disconnected, Select, timer_polled, activity, closed, shutdown_received,
  Actor, ended, run, after_sync, start,
}
use lexe_public.InactivityTimer.Quiet.{InOrder, Undisturbed}

poll-later :
    (now t : ℕ) (before rest : List (ℕ × Select))
    → InOrder now (before ++ (t, timer_polled) ∷ rest)
    → now ≤ t
poll-later now t [] rest k = k.0
poll-later now t ((s, e) ∷ before) rest k = omega (arith, k.0, poll-later s t before rest k.1)

-- The signal is sent at `t` at the latest.
abbrev pub SentBy : Actor → ℕ → Type 0
SentBy actor t = (u : ℕ) × (actor ≡ ended true u) × (u ≤ t)

run-SentBy :
    (duration now deadline t : ℕ) (before rest : List (ℕ × Select))
    → InOrder now (before ++ (t, timer_polled) ∷ rest)
    → deadline ≤ t
    → Undisturbed duration t before
    → SentBy (run duration deadline (before ++ (t, timer_polled) ∷ rest)) t
unfolding run
run-SentBy duration now deadline t [] rest k d q = (t, ground arith, omega arith)
run-SentBy duration now deadline t ((s, timer_polled) ∷ before) rest k d q =
    elim (Bool-cases (leb deadline s)) [
      | inl e ↦ (s, rw e refl, poll-later s t before rest k.1)
      | inr e ↦ rw e (run-SentBy duration s deadline t before rest k.1 d q)
    ]
run-SentBy duration now deadline t ((s, activity) ∷ before) rest k d q =
    run-SentBy duration s (s + duration) t before rest k.1 q.0 q.1
run-SentBy duration now deadline t ((s, closed) ∷ before) rest k d q = elim q [ ]
run-SentBy duration now deadline t ((s, shutdown_received) ∷ before) rest k d q = elim q [ ]

-- If time does not run backwards, and the timer is polled at a time before which only activity
-- was received, when `duration` has passed since the start and since each activity event, then
-- the shutdown signal is sent at that time or earlier.
pub start-SentBy :
    (shutdown_after_sync : Bool) (duration : ℕ) (first : TryRecv) (now t : ℕ)
    (before rest : List (ℕ × Select))
    → InOrder now (before ++ (t, timer_polled) ∷ rest)
    → now + duration ≤ t
    → Undisturbed duration t before
    → SentBy (start shutdown_after_sync duration first now (before ++ (t, timer_polled) ∷ rest)) t
unfolding start after_sync
start-SentBy false duration first now t before rest k d q =
    run-SentBy duration now (now + duration) t before rest k d q
start-SentBy true duration received now t before rest k d q =
    run-SentBy duration now (now + duration) t before rest k d q
start-SentBy true duration empty now t before rest k d q = (now, refl, omega arith)
start-SentBy true duration disconnected now t before rest k d q = (now, refl, omega arith)
