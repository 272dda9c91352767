-- ===== src/InactivityTimer/Tests.antt =====
-- The timer of `case_4`: activity after 500 ms, and the signal 1000 ms later, although the timer is polled
-- in between.
use lexe_public.Base.{ℕ, true, false, List, [], ◌∷◌, ◌++◌, ◌≡◌, ◌≢◌, refl, ◌⊎◌, arith}
use lexe_public.InactivityTimer.{
  received, empty, Select, timer_polled, activity, waiting, ended, run, start,
}
use lexe_public.InactivityTimer.Quiet.{InOrder, SentAfterQuiet, start-quiet}
use lexe_public.InactivityTimer.Firing.{SentBy, start-SentBy}

abbrev early : List (ℕ × Select)
early = (0, timer_polled) ∷ (500, activity) ∷ (1000, timer_polled) ∷ []

abbrev case_4 : List (ℕ × Select)
case_4 = early ++ (1500, timer_polled) ∷ []

early-run : start false 1000 empty 0 early ≡ waiting 1500
unfolding start run
early-run = refl

case_4-run : start false 1000 empty 0 case_4 ≡ ended true 1500
unfolding start run
case_4-run = refl

abbrev fired : ℕ
fired = 1500

case_4-InOrder : InOrder 0 case_4
case_4-InOrder = (omega arith, (omega arith, (omega arith, (omega arith, tt))))

start-quiet_example :
    ((false ≡ true) × (empty ≢ received) × (fired ≡ 0)) ⊎ SentAfterQuiet 1000 0 case_4 fired
start-quiet_example = start-quiet false 1000 empty 0 case_4 fired case_4-InOrder case_4-run

start-SentBy_example : SentBy (start false 1000 empty 0 case_4) fired
start-SentBy_example =
    start-SentBy false 1000 empty 0 fired early [] case_4-InOrder (omega arith) (omega arith, tt)
