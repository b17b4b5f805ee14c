-- ===== src/Loop/Waiting.antt =====
-- apexd/apexd_loop.cpp: how long `WaitForDevice` polls.
use Prim.Native.String.{◌++◌ as append}
use system_apex.Text.{to_text}
use system_apex.Base.{
  ℕ, zero, suc, ◌+◌, ◌-◌, ◌≤◌, ◌<◌, String, ◌≡◌, ◌≢◌, Bool, true, false, ◌||◌, none, [], ◌∷◌, error,
  abort, arith, if◌then◌else◌,
}
use system_apex.Kernel.{Kernel, Trace, Call, usleep}
use system_apex.Loop.{LoopHost, poll_device, wait_for_device, first_open, candidate_devices}

-- How often the daemon has slept.
abbrev is_sleep : Call → ℕ
is_sleep usleep = 1
is_sleep _ = 0

unfoldable pub sleeps : Trace → ℕ
sleeps [] = 0
sleeps ((c, done) ∷ t) = is_sleep c + sleeps t

-- The cold boot is over, and stays so, once the daemon has slept `n` times.
abbrev pub ColdBootBy : Kernel → ℕ → Type 0
ColdBootBy k n = (t : Trace) → n ≤ sleeps t → k.cold_boot_done t ≡ true

poll_device_returns :
    (k : Kernel) (attempts num n : ℕ)
    → ColdBootBy k n
    → 1 ≤ attempts
    → (fuel i : ℕ) (cold : Bool) (t : Trace) → i ≤ attempts
    → (cold ≡ false → i ≤ 1)
    → (n - sleeps t) + (attempts - i) < fuel
    → (poll_device k attempts num fuel i cold t).0 ≢ abort
unfolding poll_device sleeps
poll_device_returns k attempts num n by pos zero i cold t le small enough = absurd (omega arith)
poll_device_returns k attempts num n by pos (suc fuel) i cold t le small enough = ground (
  arith,
  by t,
  poll_device_returns k attempts num n by pos fuel
      (suc (if cold || k.cold_boot_done t then i else 0)) (cold || k.cold_boot_done t)
      ((usleep, k.succeeds t usleep) ∷ t),
)

-- Where the cold boot is over once the daemon has slept `n` times, and at least one attempt is
-- configured, `WaitForDevice` returns: it polls at most `n` times and once for each attempt.
pub wait_for_device-returns :
    (h : LoopHost) (num n : ℕ) (t : Trace)
    → ColdBootBy h.kernel n
    → 1 ≤ h.attempts
    → n + h.attempts < h.polls
    → (wait_for_device h num t).0 ≢ abort
unfolding wait_for_device
wait_for_device-returns h num n t by pos enough =
    poll_device_returns h.kernel h.attempts num n by pos h.polls 0 (h.kernel.cold_boot_done t) t
      (omega arith) (λ _. omega arith) (omega arith)

-- A property that is set stays set.
abbrev pub StaysDone : Kernel → Type 0
StaysDone k =
    (t : Trace) (c : Call) (done : Bool)
    → k.cold_boot_done t ≡ true
    → k.cold_boot_done ((c, done) ∷ t) ≡ true

poll_device-error :
    (k : Kernel) (attempts num : ℕ)
    → StaysDone k
    → 2 ≤ attempts
    → (fuel i : ℕ) (cold : Bool) (t : Trace) (e : String) → (cold ≡ false → i ≤ 1)
    → (cold ≡ true → k.cold_boot_done t ≡ true)
    → (poll_device k attempts num fuel i cold t).0 ≡ error e
    → k.cold_boot_done (poll_device k attempts num fuel i cold t).1 ≡ true
unfolding poll_device
poll_device-error k attempts num stays two zero i cold t e small seen h = absurd (ground arith)
poll_device-error k attempts num stays two (suc fuel) i cold t e small seen h =
    let cold' = cold || k.cold_boot_done t in
    ground (
      arith,
      stays t usleep (k.succeeds t usleep),
      poll_device-error k attempts num stays two fuel (suc (if cold' then i else 0)) cold'
          ((usleep, k.succeeds t usleep) ∷ t) e,
    )

-- With two attempts or more, `WaitForDevice` fails only after the cold boot is over.
pub wait_for_device-error :
    (h : LoopHost) (num : ℕ) (t : Trace) (e : String)
    → StaysDone h.kernel
    → 2 ≤ h.attempts
    → (wait_for_device h num t).0 ≡ error e
    → h.kernel.cold_boot_done (wait_for_device h num t).1 ≡ true
unfolding wait_for_device
wait_for_device-error h num t e stays two bad =
    poll_device-error h.kernel h.attempts num stays two h.polls 0 (h.kernel.cold_boot_done t) t e
      (λ _. omega arith) (λ c. c) bad

-- With one attempt it gives up after one look, whether the cold boot is over or not.
pub wait_for_device_once :
    (h : LoopHost) (num fuel : ℕ) (t : Trace)
    → h.attempts ≡ 1
    → h.polls ≡ suc (suc fuel)
    → first_open h.kernel t (candidate_devices num) ≡ none
    → wait_for_device h num t ≡ (
      error (append "Failed to open loopback device " (to_text num)),
      (usleep, h.kernel.succeeds t usleep) ∷ t,
    )
unfolding wait_for_device poll_device
wait_for_device_once h num fuel t one two shut = ground arith
