-- ===== src/InactivityTimer.antt =====
-- The inactivity timer of the node (node/src/inactivity_timer.rs), which sends the shutdown signal
-- when the command server has seen no activity for a while. `select!` polls its branches until one is
-- ready: the list has each poll of the timer, ready or not, and each message that another branch
-- receives, with the time at which it happens. Log lines are left out.
pub mod Quiet
pub mod Firing
mod Tests
use lexe_public.Base.{ℕ, ◌+◌, Bool, true, false, List, [], ◌∷◌, if◌then◌else◌, leb}

-- `try_recv` on the channel of activity events.
pub data TryRecv : Type 0 where
  received empty disconnected : TryRecv

-- A poll of the timer, and the messages of the other branches of `select!`; `closed` is a `recv` that
-- gives `None`.
pub data Select : Type 0 where
  timer_polled activity closed shutdown_received : Select

-- The timer waits for its deadline, or has ended, and has sent the signal or not.
pub data Actor : Type 0 where
  waiting : (deadline : ℕ) → Actor
  ended : (sent : Bool) → (time : ℕ) → Actor

-- A `Sleep` is ready when it is polled at its deadline or later.
run : ℕ → ℕ → List (ℕ × Select) → Actor
run duration deadline [] = waiting deadline
run duration deadline ((t, timer_polled) ∷ es) =
    let rest = run duration deadline es in if leb deadline t then ended true t else rest
run duration deadline ((t, activity) ∷ es) = run duration (t + duration) es
run duration deadline ((t, closed) ∷ es) = ended false t
run duration deadline ((t, shutdown_received) ∷ es) = ended false t

after_sync : ℕ → ℕ → TryRecv → List (ℕ × Select) → Actor
unfolding run
after_sync duration now received es = run duration (now + duration) es
after_sync duration now empty es = ended true now
after_sync duration now disconnected es = ended true now

unfoldable pub start : Bool → ℕ → TryRecv → ℕ → List (ℕ × Select) → Actor
unfolding after_sync run
start shutdown_after_sync duration first now es =
    if shutdown_after_sync
    then after_sync duration now first es
    else run duration (now + duration) es
