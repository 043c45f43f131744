-- ===== src/Cli/Process/Waiting.antt =====
-- The wait of `revolution stop`, and what it leaves (internal/cli/process.go, internal/cli/stop.go).
use revolution.Prelude.{
  ℕ, zero, suc, ◌+◌, ◌*◌, ◌≤◌, ◌≡◌, refl, ap, ◌∙◌, ℤ, Bool, true, not, ltb, if◌then◌else◌, arith,
  inr, ◌⊎◌,
}
use revolution.Cli.Process.{Machine, wait_loop, wait_for_exit}

module _ (m : Machine) (pid : ℤ) (deadline : ℕ) where
  -- One turn, by what is left to do after the sleep.
  abbrev turn : ℕ → Bool × ℕ → Bool × ℕ
  turn now rest =
      if ltb now deadline
      then (if m.alive now pid then rest else (true, now))
      else (not (m.alive now pid), now)

  turn_over :
      (now : ℕ) (rest : Bool × ℕ) → deadline ≤ now → turn now rest ≡ (not (m.alive now pid), now)
  turn_over now rest h = ground arith

  wait_loop_over :
      (more now : ℕ)
      → deadline ≤ now
      → wait_loop more m pid deadline now ≡ (not (m.alive now pid), now)
  unfolding wait_loop
  wait_loop_over zero now h = refl
  wait_loop_over (suc more) now h = turn_over now _ h

  -- Fuel for every sleep up to the deadline is enough.
  wait_loop_enough :
      (fuel more now : ℕ)
      → deadline ≤ now + fuel * 100
      → wait_loop (fuel + more) m pid deadline now ≡ wait_loop fuel m pid deadline now
  unfolding wait_loop
  wait_loop_enough zero more now h = wait_loop_over (zero + more) now (omega arith)
  wait_loop_enough (suc fuel) more now h =
      let same : suc fuel + more ≡ suc (fuel + more) = omega arith in
      ap (λ (k : ℕ). wait_loop k m pid deadline now) same
      ∙ ap (turn now) (wait_loop_enough fuel more (now + 100 + m.late now) (omega arith))

  -- What the loop returns is whether the process is gone at the time it ends.
  wait_loop-alive :
      (fuel now : ℕ)
      → (wait_loop fuel m pid deadline now).0
        ≡ not (m.alive (wait_loop fuel m pid deadline now).1 pid)
  unfolding wait_loop
  wait_loop-alive zero now = refl
  wait_loop-alive (suc fuel) now = ground (arith, wait_loop-alive fuel (now + 100 + m.late now))

  turn-given_up :
      (now : ℕ) (rest : Bool × ℕ)
      → (rest.0 ≡ true) ⊎ (deadline ≤ rest.1)
      → ((turn now rest).0 ≡ true) ⊎ (deadline ≤ (turn now rest).1)
  turn-given_up now rest h = ground (arith, h)

  -- The loop gives up only after the deadline.
  wait_loop-given_up :
      (fuel now : ℕ)
      → deadline ≤ now + fuel * 100
      → ((wait_loop fuel m pid deadline now).0 ≡ true)
        ⊎ (deadline ≤ (wait_loop fuel m pid deadline now).1)
  unfolding wait_loop
  wait_loop-given_up zero now h = inr (omega arith)
  wait_loop-given_up (suc fuel) now h =
      turn-given_up now _ (wait_loop-given_up fuel (now + 100 + m.late now) (omega arith))

-- However long the sleeps take, `waitForExit` ends within 101 turns, and what it returns is whether the process is
-- gone at the time it ends; it returns that the process is there only ten seconds or more after it began.
pub wait_for_exit_lem :
    (m : Machine) (pid : ℤ)
    → ((more : ℕ) → wait_loop (101 + more) m pid (m.now + 10000) m.now ≡ wait_for_exit m pid)
      × ((wait_for_exit m pid).0 ≡ not (m.alive (wait_for_exit m pid).1 pid))
      × (((wait_for_exit m pid).0 ≡ true) ⊎ (m.now + 10000 ≤ (wait_for_exit m pid).1))
unfolding wait_for_exit
wait_for_exit_lem m pid = (
  λ more. wait_loop_enough m pid (m.now + 10000) 101 more m.now (omega arith),
  wait_loop-alive m pid (m.now + 10000) 101 m.now,
  wait_loop-given_up m pid (m.now + 10000) 101 m.now (omega arith),
)
