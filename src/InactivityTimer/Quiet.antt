-- ===== src/InactivityTimer/Quiet.antt =====
-- The inactivity timer (node/src/inactivity_timer.rs) sends the signal only after quiet.
use lexe_public.Base.{
  ℕ, ◌+◌, ◌≤◌, Bool, true, false, List, [], ◌∷◌, ◌++◌, ◌≡◌, ◌≢◌, refl, ap, ◌⊎◌, inl, inr, leb,
  Bool-cases, arith,
}
use lexe_public.InactivityTimer.{
  TryRecv, received, empty, disconnected, Select, timer_polled, activity, closed, shutdown_received,
  ended, run, after_sync, start,
}

-- Time does not run backwards.
abbrev pub InOrder : ℕ → List (ℕ × Select) → Type 0
InOrder now [] = Unit
InOrder now ((t, e) ∷ es) = (now ≤ t) × InOrder t es

-- `duration` has passed until `t` since each activity event, and no other message has come.
abbrev pub Undisturbed : ℕ → ℕ → List (ℕ × Select) → Type 0
Undisturbed duration t [] = Unit
Undisturbed duration t ((s, timer_polled) ∷ es) = Undisturbed duration t es
Undisturbed duration t ((s, activity) ∷ es) = (s + duration ≤ t) × Undisturbed duration t es
Undisturbed duration t ((s, closed) ∷ es) = ⊥
Undisturbed duration t ((s, shutdown_received) ∷ es) = ⊥

-- The signal is sent at a poll of the timer before which it was quiet.
abbrev pub SentAfterQuiet : ℕ → ℕ → List (ℕ × Select) → ℕ → Type 0
SentAfterQuiet duration now es t =
    (now + duration ≤ t)
    × ((before rest : List (ℕ × Select)) × (es ≡ before ++ (t, timer_polled) ∷ rest)
        × Undisturbed duration t before)

-- An earlier poll or message before the cut.
cut_later :
    (e : ℕ × Select) (es before rest : List (ℕ × Select)) (t : ℕ)
    → es ≡ before ++ (t, timer_polled) ∷ rest
    → e ∷ es ≡ (e ∷ before) ++ (t, timer_polled) ∷ rest
cut_later e es before rest t h = ap (λ (l : List (ℕ × Select)). e ∷ l) h

run-quiet :
    (duration now deadline : ℕ) (es : List (ℕ × Select)) (t : ℕ)
    → InOrder now es
    → deadline ≤ now + duration
    → run duration deadline es ≡ ended true t
    → (deadline ≤ t)
      × ((before rest : List (ℕ × Select)) × (es ≡ before ++ (t, timer_polled) ∷ rest)
          × Undisturbed duration t before)
unfolding run
run-quiet duration now deadline [] t k d h = cc
run-quiet duration now deadline ((s, timer_polled) ∷ es) t k d h =
    elim (Bool-cases (leb deadline s)) [
      | inl e ↦
          let ends : ended true s ≡ ended true t = rw e at h in
          let same : s ≡ t = cc ends in (ground arith, ([], es, rw same refl, tt))
      | inr e ↦
          let (bound, (before, rest, cut, quiet)) =
            run-quiet duration s deadline es t k.1 (omega (arith, k.0, d)) (rw e at h) in
          (
            bound,
            (
              (s, timer_polled) ∷ before,
              rest,
              cut_later (s, timer_polled) es before rest t cut,
              quiet,
            ),
          )
    ]
run-quiet duration now deadline ((s, activity) ∷ es) t k d h =
    let (bound, (before, rest, cut, quiet)) =
      run-quiet duration s (s + duration) es t k.1 (omega arith) h in
    (
      omega (arith, k.0, d, bound),
      ((s, activity) ∷ before, rest, cut_later (s, activity) es before rest t cut, (bound, quiet)),
    )
run-quiet duration now deadline ((s, closed) ∷ es) t k d h = cc
run-quiet duration now deadline ((s, shutdown_received) ∷ es) t k d h = cc

-- If time does not run backwards, then when the inactivity timer sends the shutdown signal,
-- either it was told to shut down after the sync, saw no activity and sends it at once, or it
-- sends it at a poll of the timer before which only activity was received, and `duration` has
-- passed since the start and since each activity event before that poll.
pub start-quiet :
    (shutdown_after_sync : Bool) (duration : ℕ) (first : TryRecv) (now : ℕ) (es : List (ℕ × Select))
    (t : ℕ)
    → InOrder now es
    → start shutdown_after_sync duration first now es ≡ ended true t
    → ((shutdown_after_sync ≡ true) × (first ≢ received) × (t ≡ now))
      ⊎ SentAfterQuiet duration now es t
unfolding start after_sync
start-quiet false duration first now es t k h =
    inr (run-quiet duration now (now + duration) es t k (omega arith) h)
start-quiet true duration received now es t k h =
    inr (run-quiet duration now (now + duration) es t k (omega arith) h)
start-quiet true duration empty now es t k h = inl (refl, (λ e. cc), cc)
start-quiet true duration disconnected now es t k h = inl (refl, (λ e. cc), cc)
