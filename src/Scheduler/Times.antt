-- ===== src/Scheduler/Times.antt =====
-- The times of the timers, and the timers that run out.
use privately_distributed_cl.Common.{
  ℕ, ◌+◌, ◌*◌, ◌<◌, ◌≡◌, ◌≢◌, refl, arith, List, [], ◌∷◌, ◌++◌, length, some,
}
use privately_distributed_cl.Scheduler.{it_value, nano, runs_out, arm, Timer}

-- The seconds and the rest of them are the time, and the rest is less than a second, as
-- `timer_settime` asks for.
pub it_value_lem :
    (time_nano : ℕ)
    → let value = it_value time_nano in
      value.tv_sec * nano + value.tv_nsec ≡ time_nano × value.tv_nsec < nano
unfolding it_value
it_value_lem time_nano = (omega arith, omega arith)

-- A time that is not zero sets the timer, behind the others.
pub arm_lem :
    {Task : Type 0} (id time_nano : ℕ) (task : Task) (armed : List (Timer Task))
    → time_nano ≢ 0
    → let timer : Timer Task = record { id = id; value = it_value time_nano; task = task } in
      arm timer armed ≡ armed ++ (timer ∷ [])
unfolding arm it_value
arm_lem id time_nano task armed long = ground (arith, long, it_value_lem time_nano)

-- The last of the timers that are set runs out.
pub runs_out_last :
    {A : Type 0} (xs : List A) (x : A) → runs_out (length xs) (xs ++ (x ∷ [])) ≡ some (x, xs)
unfolding runs_out
runs_out_last [] x = refl
runs_out_last (y ∷ xs) x = rw (runs_out_last xs x, runs_out) refl
