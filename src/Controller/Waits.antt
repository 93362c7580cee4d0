-- ===== src/Controller/Waits.antt =====
-- How long `Stop` of controller/controller.go waits.
use trakx.Common.{
  ℕ, zero, suc, ◌+◌, ◌≤◌, ◌<◌, ◌≡◌, refl, ap, ◌∙◌, true, false, none, some, ◌==◌, if◌then◌else◌,
  arith, Bool-cases, inl, inr,
}
use trakx.Common.Files.{File}
use trakx.Common.Outcome.{ok}
use trakx.Bencoding.Decimal.{ℤ}
use trakx.Controller.PidFile.{read}
use trakx.Controller.Service.{
  System, no_such_process, stop_loop, stopped, wait, signal, signalled, stop, clear_file,
}

-- `r + n` by recursion on `r`, in the two ways that the loop counts.
abbrev rounds : ℕ → ℕ → ℕ
rounds zero fuel = fuel
rounds (suc r) fuel = suc (rounds r fuel)

abbrev later : ℕ → ℕ → ℕ
later zero j = j
later (suc r) j = later r (suc j)

rounds_add : (r fuel : ℕ) → rounds r fuel ≡ r + fuel
rounds_add zero fuel = omega arith
rounds_add (suc r) fuel = omega (arith, rounds_add r fuel)

later_add : (r j : ℕ) → later r j ≡ r + j
later_add zero j = omega arith
later_add (suc r) j = omega (arith, later_add r (suc j))

-- The test at which the loop ends.
abbrev pub last_test : ℕ → ℕ
last_test n = if n == 100 then suc n else n

last_test_ne : (n : ℕ) → (last_test n == 100) ≡ false
last_test_ne n = ground arith

module _ (file : File) (system : System file) where
  -- The world after some sleeps.
  abbrev pub sleeps : ℕ → file.World → file.World
  sleeps zero w = w
  sleeps (suc k) w = system.sleep (sleeps k w)

  -- The process lives on for `n` tests and is gone from then on.
  pub record IsGoneFrom (n : ℕ) (process_id : ℤ) (w : file.World) : Type 0 where
    pub alive : (k : ℕ) → 0 < k → k < n → system.kill_probe process_id (sleeps k w) ≡ none
    pub gone : (k : ℕ) → n ≤ k → system.kill_probe process_id (sleeps k w) ≡ some no_such_process

  loop_waits :
      (r fuel j : ℕ) (process_id : ℤ) (w : file.World)
      → ((k : ℕ) → 0 < k → k ≤ later r j → system.kill_probe process_id (sleeps k w) ≡ none)
      → stop_loop file system (suc (rounds r fuel)) process_id j none (sleeps j w)
        ≡ stop_loop file system fuel process_id
            (suc (later r j))
            (system.kill_probe process_id (sleeps (suc (later r j)) w))
            (sleeps (suc (later r j)) w)
  unfolding stop_loop
  loop_waits zero fuel j process_id w h = refl
  loop_waits (suc r) fuel j process_id w h =
      let here : system.kill_probe process_id (sleeps (suc j) w) ≡ none =
        h (suc j) (omega arith) (omega (arith, later_add r (suc j))) in
      rw (here, stop_loop) (loop_waits r fuel (suc j) process_id w h)

  loop_at :
      (fuel i : ℕ) (process_id : ℤ) (w : file.World)
      → (i == 100) ≡ false
      → stop_loop file system (suc fuel) process_id i (some no_such_process) w
        ≡ some (w, i, some no_such_process)
  unfolding stop_loop
  loop_at fuel i process_id w h = rw (h, stop_loop)

  loop_past :
      (fuel i : ℕ) (process_id : ℤ) (w : file.World)
      → (i == 100) ≡ true
      → stop_loop file system (suc fuel) process_id i (some no_such_process) w
        ≡ stop_loop file system fuel process_id
            (suc i)
            (system.kill_probe process_id (system.sleep w))
            (system.sleep w)
  unfolding stop_loop
  loop_past fuel i process_id w h = rw (h, stop_loop)

  loop_last :
      (i : ℕ) (process_id : ℤ) (w : file.World)
      → system.kill_probe process_id (sleeps (suc i) w) ≡ some no_such_process
      → stop_loop file system 2 process_id i (some no_such_process) (sleeps i w)
        ≡ some (sleeps (last_test i) w, last_test i, some no_such_process)
  loop_last i process_id w h = elim (Bool-cases (i == 100)) [
    | inl e ↦ rw e (
        loop_past 1 i process_id (sleeps i w) e
        ∙ ap (λ k. stop_loop file system 1 process_id (suc i) k (sleeps (suc i) w)) h
        ∙ loop_at 0 (suc i) process_id (sleeps (suc i) w) (ground (arith, e)))
    | inr e ↦ rw e (loop_at 1 i process_id (sleeps i w) e)
  ]

  loop_ends :
      (n : ℕ) (process_id : ℤ) (w : file.World)
      → IsGoneFrom (suc n) process_id w
      → stop_loop file system (n + 3) process_id 0 none w
        ≡ some (sleeps (last_test (suc n)) w, last_test (suc n), some no_such_process)
  unfolding stop_loop
  loop_ends n process_id w g =
      let fuel : n + 3 ≡ suc (rounds n 2) = omega (arith, rounds_add n 2) in
      let tests : later n 0 ≡ n = omega (arith, later_add n 0) in
      let waited = loop_waits n 2 0 process_id w (λ k h i. g.alive k h (omega (arith, tests))) in
      rw fuel (
        rw waited (
          rw tests (
            rw (g.gone (suc n) (omega arith))
              (loop_last (suc n) process_id w (g.gone (suc (suc n)) (omega arith))))))

  loop_goes_on :
      (fuel i : ℕ) (process_id : ℤ) (w : file.World)
      → ((k : ℕ) → system.kill_probe process_id (sleeps (suc k) w) ≡ none)
      → stop_loop file system fuel process_id i none (sleeps i w) ≡ none
  unfolding stop_loop
  loop_goes_on zero i process_id w h = refl
  loop_goes_on (suc fuel) i process_id w h =
      rw (h i, stop_loop) (loop_goes_on fuel (suc i) process_id w h)

  module _ (process_id : ℤ) {w w1 : file.World} (given : read file w ≡ (process_id, none))
      (found : system.find_process process_id w ≡ true)
      (sent : system.signal_stop process_id w ≡ (w1, true))
      (kept : read file w1 ≡ (process_id, none)) where
    stop-wait : (fuel : ℕ) → stop file system fuel w ≡ wait file system fuel (process_id, none) w1
    unfolding stop signal signalled
    stop-wait fuel =
        ap (λ r. signal file system fuel r w) given
        ∙ rw (found, signal)
            (ap (signalled file system fuel) sent ∙ ap (λ r. wait file system fuel r w1) kept)

    -- When the process id file names a process that takes the signal, which does not change the file,
    -- and the process is gone at some test and stays gone, `Stop` ends, and what it returns is what
    -- clearing the file returns. The test at which the process is found gone is the last, save the
    -- hundredth, which is followed by one more; there is no time out, however long it took.
    pub stop-IsGoneFrom :
        (n : ℕ)
        → IsGoneFrom (suc n) process_id w1
        → stop file system (n + 3) w
          ≡ some (ok (clear_file file system (sleeps (last_test (suc n)) w1)))
    unfolding wait stopped
    stop-IsGoneFrom n g =
        stop-wait (n + 3)
        ∙ rw (loop_ends n process_id w1 g, wait) (rw (last_test_ne (suc n), stopped) refl)

    -- A process that takes the signal, which does not change the file, and lives on, is waited for
    -- without an end: `Stop` returns after no number of tests.
    pub stop-alive :
        ((k : ℕ) → system.kill_probe process_id (sleeps (suc k) w1) ≡ none)
        → (fuel : ℕ) → stop file system fuel w ≡ none
    unfolding wait
    stop-alive h fuel = stop-wait fuel ∙ rw (loop_goes_on fuel 0 process_id w1 h, wait)
