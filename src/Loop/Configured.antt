-- ===== src/Loop/Configured.antt =====
-- apexd/apexd_loop.cpp: a loop device that is not handed out is cleared again.
use text.Mathlib.Text.{starts_with}
use system_apex.Base.{
  ℕ, zero, suc, String, refl, Bool, not, ◌||◌, none, some, List, [], ◌∷◌, Result, ok, error, abort,
  arith, if◌then◌else◌, and_then, nat_eq, if-keeps,
}
use system_apex.Text.{filename}
use Prim.Native.String.{◌++◌ as append}
use system_apex.Kernel.{
  Kernel, Trace, write_file, loop_configure, loop_set_fd, loop_set_status, blk_flush,
  loop_set_block_size, loop_clr_fd, usleep, require, or_undo,
}
use system_apex.Kernel.Held.{
  Resource, loop_device, Within, creates, releases, Within-plain, Within-weaken,
}
use system_apex.Kernel.Keeping.{
  Keeping, owns_all, Keeping-and_then, Keeping-or_undo, Keeping-if, Keeping-require,
  Keeping-require_new, Keeping-weaken,
}
use system_apex.Loop.Queue.{BlockDevices, configure_queue_depth}
use system_apex.Loop.{
  sys_block, LoopHost, write_scheduler, configure_scheduler, configure_read_ahead,
  set_fd_and_status, configure_loop_device, open_target, loop_info, first_open, candidate_devices,
  poll_device, wait_for_device, create_loop_device, tune_loop_device,
  create_and_configure_loop_device, destroy_loop_device,
}

module _ (new : List Resource) (t : Trace) where
  Within-write_scheduler :
      (k : Kernel) (path : String) (ss : List String) (t' : Trace)
      → Within new t t'
      → Within new t (write_scheduler k path ss t').1
  unfolding write_scheduler creates
  Within-write_scheduler k path [] t' w = w
  Within-write_scheduler k path (s ∷ ss) t' w =
      let done = k.succeeds t' (write_file path s) in
      let written = Within-plain new t t' (write_file path s) done refl w in
      if-keeps (λ (r : Result (Unit {0}) × Trace). Within new t r.1) done (λ _. written)
        (λ _. Within-write_scheduler k path ss ((write_file path s, done) ∷ t') written)

  Within-configure_scheduler :
      (k : Kernel) (device : String) (t' : Trace)
      → Within new t t'
      → Within new t (configure_scheduler k device t').1
  unfolding configure_scheduler
  Within-configure_scheduler k device t' w = grind (arith, w, Within-write_scheduler)

  Within-configure_queue_depth :
      (k : Kernel) (b : BlockDevices) (device target : String) (t' : Trace)
      → Within new t t'
      → Within new t (configure_queue_depth k b device target t').1
  unfolding configure_queue_depth creates
  Within-configure_queue_depth k b device target t' w = grind (arith, w, Within-plain)

  -- The polling makes nothing; the device that it finds is not bound yet.
  Keeping-poll_device :
      (k : Kernel) (attempts num fuel i : ℕ) (cold : Bool) (t' : Trace)
      → Within new t t'
      → Keeping (owns_all new) new t (poll_device k attempts num fuel i cold t')
  unfolding poll_device creates
  Keeping-poll_device k attempts num zero i cold t' w = tt
  Keeping-poll_device k attempts num (suc fuel) i cold t' w =
      let cold' = cold || k.cold_boot_done t' in
      let later =
        Keeping-poll_device k attempts num fuel (suc (if cold' then i else 0)) cold'
          ((usleep, k.succeeds t' usleep) ∷ t')
          (Within-plain new t t' usleep (k.succeeds t' usleep) refl w) in
      Keeping-if (owns_all new) new t (nat_eq i attempts) _ _ (λ _. w)
        (λ _.
          elim (first_open k t' (candidate_devices num))
            as (λ o. Keeping {A = String} (owns_all new) new t (elim o [
              | some d ↦ (ok d, t')
              | none ↦
                  poll_device k attempts num fuel (suc (if cold' then i else 0)) cold'
                    ((usleep, k.succeeds t' usleep) ∷ t')
            ])) [ some d ↦ w | none ↦ later ])

  Keeping-configure_loop_device :
      (k : Kernel) (device target : String) (offset size : ℕ) (t' : Trace)
      → Within new t t'
      → Keeping
          (owns_all (loop_device device ∷ new))
          (loop_device device ∷ new)
          t
          (configure_loop_device k device target offset size t')
  unfolding configure_loop_device set_fd_and_status creates
  Keeping-configure_loop_device k device target offset size t' w =
      let x = loop_device device in
      let li = loop_info offset size in
      let more = Within-weaken x new t t' w in
      Keeping-if (owns_all (x ∷ new)) (x ∷ new) t (not (open_target k t' target)) _ _ (λ _. more)
        (λ _.
          Keeping-if (owns_all (x ∷ new)) (x ∷ new) t k.has_loop_configure _ _
            (λ _. Keeping-weaken (owns_all (x ∷ new)) x new t _ (
              Keeping-require_new k new t t' (loop_configure device target li)
                "Failed to LOOP_CONFIGURE" x refl w))
            (λ _.
              Keeping-and_then (owns_all (x ∷ new)) (owns_all (x ∷ new)) (x ∷ new) t _ _
                (Keeping-weaken (owns_all (x ∷ new)) x new t _ (
                  Keeping-require_new k new t t' (loop_set_fd device target) "Failed to LOOP_SET_FD"
                    x refl w))
                (λ _ t₁ w₁.
                  Keeping-and_then (owns_all (x ∷ new)) (owns_all (x ∷ new)) (x ∷ new) t _ _
                    (Keeping-require k (x ∷ new) t t₁ (loop_set_status device li)
                      "Failed to LOOP_SET_STATUS64" refl w₁)
                    (λ _ t₂ w₂.
                      Keeping-and_then (owns_all (x ∷ new)) (owns_all (x ∷ new)) (x ∷ new) t _ _
                        (Keeping-require k (x ∷ new) t t₂ (blk_flush device)
                          "Failed to flush buffers on the loop device" refl w₂)
                        (λ _ t₃ w₃.
                          Within-plain (x ∷ new) t t₃ (loop_set_block_size device)
                            (k.succeeds t₃ (loop_set_block_size device)) refl w₃)))))

  pub Keeping-configure_read_ahead :
      (k : Kernel) (path : String) (t' : Trace)
      → Within new t t'
      → Keeping (owns_all new) new t (configure_read_ahead k path t')
  unfolding configure_read_ahead creates
  Keeping-configure_read_ahead k path t' w =
      let file = sys_block (filename path) "/queue/read_ahead_kb" in
      Keeping-if (owns_all new) new t (not (starts_with path "/dev/")) _ _ (λ _. tt)
        (λ _.
          Keeping-if (owns_all new) new t (not (k.can_open t' file))
            (error (append "Failed to open " file), t')
            (require k (write_file file "128") (append "Failed to write to " file) t') (λ _. w)
            (λ _.
              Keeping-require k new t t' (write_file file "128") (append "Failed to write to " file)
                refl w))

-- The loop device that a file is bound to is all that is left to release after a success.
abbrev pub owns_loop : List Resource → String → List Resource
owns_loop new device = loop_device device ∷ new

Keeping-tune_loop_device :
    (new : List Resource) (t : Trace) (h : LoopHost) (target device : String) (t' : Trace)
    → Within (loop_device device ∷ new) t t'
    → Keeping (owns_loop new) (loop_device device ∷ new) t (tune_loop_device h target device t')
unfolding tune_loop_device
Keeping-tune_loop_device new t h target device t' w =
    let k = h.kernel in
    let held = loop_device device ∷ new in
    let scheduled = configure_scheduler k device t' in
    let w₁ = Within-configure_scheduler held t k device t' w in
    let queued = configure_queue_depth k h.blocks device target scheduled.1 in
    let w₂ = Within-configure_queue_depth held t k h.blocks device target scheduled.1 w₁ in
    let tuned : Keeping (owns_loop new) held t
        (and_then (configure_read_ahead k device queued.1) (λ _ t₃. (ok device, t₃))) =
      Keeping-and_then (owns_all held) (owns_loop new) held t _ _
        (Keeping-configure_read_ahead held t k device queued.1 w₂) (λ _ t₃ w₃. w₃) in
    elim queued.0
      as (λ r. Keeping {A = String} (owns_loop new) held t (elim r [
        | ok u ↦ and_then (configure_read_ahead k device queued.1) (λ _ t₃. (ok device, t₃))
        | error e ↦ and_then (configure_read_ahead k device queued.1) (λ _ t₃. (ok device, t₃))
        | abort ↦ (abort, queued.1)
      ])) [ ok u ↦ tuned | error e ↦ tuned | abort ↦ tt ]

module _ (new : List Resource) (t : Trace) where
  Keeping-create_loop_device :
      (h : LoopHost) (target : String) (offset size : ℕ) (t' : Trace)
      → Within new t t'
      → Keeping (owns_loop new) new t (create_loop_device h target offset size t')
  unfolding create_loop_device wait_for_device releases creates
  Keeping-create_loop_device h target offset size t' w =
      let k = h.kernel in
      Keeping-if (owns_loop new) new t (not (k.can_open t' "/dev/loop-control")) _ _ (λ _. w)
        (λ _.
          elim (k.get_free t')
            as (λ o. Keeping {A = String} (owns_loop new) new t (elim o [
              | none ↦ (error "Failed LOOP_CTL_GET_FREE", t')
              | some num ↦ and_then (wait_for_device h num t') (λ device t₁.
                  or_undo k (loop_clr_fd device) (
                    and_then (configure_loop_device k device target offset size t₁)
                      (λ _ t₂. (ok device, t₂))))
            ])) [
              | none ↦ w
              | some num ↦
                  Keeping-and_then (owns_all new) (owns_loop new) new t _ _
                    (Keeping-poll_device new t k h.attempts num h.polls 0 (k.cold_boot_done t') t'
                      w)
                    (λ device t₁ w₁.
                      Keeping-or_undo k (owns_loop new) new (loop_device device)
                        (loop_clr_fd device) t _ refl refl
                        (Keeping-and_then (owns_all (owns_loop new device)) (owns_loop new)
                          (loop_device device ∷ new) t _ _
                          (Keeping-configure_loop_device new t k device target offset size t₁ w₁)
                          (λ _ t₂ w₂. w₂)))
            ])

  -- A loop device that is not handed out has been cleared.
  pub Keeping-create_and_configure :
      (h : LoopHost) (target : String) (offset size : ℕ) (t' : Trace)
      → Within new t t'
      → Keeping (owns_loop new) new t (create_and_configure_loop_device h target offset size t')
  unfolding create_and_configure_loop_device releases creates
  Keeping-create_and_configure h target offset size t' w =
      Keeping-and_then (owns_loop new) (owns_loop new) new t _ _
        (Keeping-create_loop_device h target offset size t' w)
        (λ device t₁ w₁.
          Keeping-or_undo h.kernel (owns_loop new) new (loop_device device) (loop_clr_fd device) t _
            refl refl (Keeping-tune_loop_device new t h target device t₁ w₁))

  -- What is destroyed counts as released, and nothing is made.
  pub Within-destroy_loop_device :
      (h : LoopHost) (path : String) (t' : Trace)
      → Within new t t'
      → Within new t (destroy_loop_device h path t')
  unfolding destroy_loop_device creates
  Within-destroy_loop_device h path t' w = grind (arith, w, Within-plain)
