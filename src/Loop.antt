-- ===== src/Loop.antt =====
-- apexd/apexd_loop.{h,cpp}: the loop devices. A device that is open is known by its name.
pub mod Queue
pub mod Configured
pub mod Waiting
use Prim.Native.String.{◌++◌ as append}
use text.Mathlib.Text.{starts_with}
use system_apex.Base.{
  ℕ, zero, suc, ◌+◌, String, Bool, true, false, not, ◌&&◌, ◌||◌, Option, none, some, List, [], ◌∷◌,
  Result, ok, error, abort, if◌then◌else◌, and_then, nat_eq, ltb, leb, ◌==◌,
}
use system_apex.Text.{to_text, filename}
use Queue.{BlockDevices, configure_queue_depth}
use system_apex.Kernel.{
  Kernel, Trace, Call, LoopInfo, Errno, eexist, enoent, write_file, loop_configure, loop_set_fd,
  loop_set_status, blk_flush, loop_set_block_size, loop_clr_fd, loop_ctl_add, usleep, perform,
  attempt, require, or_undo,
}

abbrev pub sys_block : String → String → String
sys_block device_name rest = append "/sys/block/" (append device_name rest)

-- The write of a scheduler that the kernel knows: `none`, or `noop` on old kernels.
unfoldable pub write_scheduler : Kernel → String → List String → Trace → Result (Unit {0}) × Trace
write_scheduler k path [] t = (error (append "Failed to write to " path), t)
write_scheduler k path (scheduler ∷ rest) t =
    let written = perform k (write_file path scheduler) t in
    let later = write_scheduler k path rest written.1 in
    if written.0 then (ok tt, written.1) else later

unfoldable pub configure_scheduler : Kernel → String → Trace → Result (Unit {0}) × Trace
configure_scheduler k device_path t =
    let path = sys_block (filename device_path) "/queue/scheduler" in
    if not (starts_with device_path "/dev/")
    then (error (append "Invalid argument " device_path), t)
    else if not (k.can_open t path)
    then (error (append "Failed to open " path), t)
    else (elim (k.read_file t path) [
      | none ↦ (error (append "Failed to read " path), t)
      | some cur ↦
          if cur == "none" || cur == "noop"
          then (ok tt, t)
          else write_scheduler k path ("none" ∷ "noop" ∷ []) t
    ])

-- The CHECK of the path ends the process.
unfoldable pub configure_read_ahead : Kernel → String → Trace → Result (Unit {0}) × Trace
configure_read_ahead k device_path t =
    let path = sys_block (filename device_path) "/queue/read_ahead_kb" in
    if not (starts_with device_path "/dev/")
    then (abort, t)
    else if not (k.can_open t path)
    then (error (append "Failed to open " path), t)
    else require k (write_file path "128") (append "Failed to write to " path) t

-- `PreAllocateLoopDevices` after /dev/loop-control is open, from a number on. LOOP_CTL_ADD returns
-- the number, and the code takes 0 for a failure. Without fuel the loop has not come to its end.
unfoldable pub preallocate : Kernel → ℕ → ℕ → ℕ → ℕ → Trace → Result (Unit {0}) × Trace
preallocate k num zero id cnt t = (abort, t)
preallocate k num (suc fuel) id cnt t =
    let added = perform k (loop_ctl_add id) t in
    let counted = preallocate k num fuel (suc id) (suc cnt) added.1 in
    let in_use = preallocate k num fuel (suc id) cnt added.1 in
    if not (ltb cnt num)
    then (ok tt, t)
    else if added.0 && ltb 0 id
    then counted
    else elim (k.errno t (loop_ctl_add id)) [
      | Errno.eexist ↦
          if k.can_access added.1 (append "/sys/block/loop" (append (to_text id) "/loop"))
          then in_use
          else counted
      | _ ↦ (error (append "Failed LOOP_CTL_ADD id = " (to_text id)), added.1)
    ]

-- `LoopInfo` of an image; LO_FLAGS_DIRECT_IO is set on `li` after `config.info` has its copy.
abbrev pub loop_info : ℕ → ℕ → LoopInfo
loop_info image_offset image_size = record {
  lo_crypt_name = "apex:";
  lo_offset = image_offset;
  lo_sizelimit = image_size;
  autoclear = true;
  direct_io = false;
}

-- The traditional ioctls.
unfoldable pub set_fd_and_status :
    Kernel → String → String → LoopInfo → Trace → Result (Unit {0}) × Trace
set_fd_and_status k device target li t =
    and_then (require k (loop_set_fd device target) "Failed to LOOP_SET_FD" t) (λ _ t₁.
      and_then (require k (loop_set_status device li) "Failed to LOOP_SET_STATUS64" t₁) (λ _ t₂.
        and_then (require k (blk_flush device) "Failed to flush buffers on the loop device" t₂)
          (λ _ t₃. (ok tt, attempt k (loop_set_block_size device) t₃))))

-- Buffered I/O is the second try, on the file systems that lack direct I/O.
unfoldable pub open_target : Kernel → Trace → String → Bool
open_target k t target =
    k.open_direct t target || (k.lacks_direct_io t target && k.open_buffered t target)

unfoldable pub configure_loop_device :
    Kernel → String → String → ℕ → ℕ → Trace → Result (Unit {0}) × Trace
configure_loop_device k device target image_offset image_size t =
    let li = loop_info image_offset image_size in
    if not (open_target k t target)
    then (error (append "Failed to open " target), t)
    else if k.has_loop_configure
    then require k (loop_configure device target li) "Failed to LOOP_CONFIGURE" t
    else set_fd_and_status k device target li t

-- The first of the paths that can be opened.
unfoldable pub first_open : Kernel → Trace → List String → Option String
first_open k t [] = none
first_open k t (d ∷ ds) = let rest = first_open k t ds in if k.can_open t d then some d else rest

abbrev pub candidate_devices : ℕ → List String
candidate_devices num =
    append "/dev/block/loop" (to_text num) ∷ append "/dev/loop" (to_text num) ∷ []

-- The polling loop of `WaitForDevice`, from the counter `i` on. Without fuel it still polls.
unfoldable pub poll_device : Kernel → ℕ → ℕ → ℕ → ℕ → Bool → Trace → Result String × Trace
poll_device k attempts num zero i cold t = (abort, t)
poll_device k attempts num (suc fuel) i cold t =
    let cold' = cold || k.cold_boot_done t in
    let rest =
      poll_device k attempts num fuel (suc (if cold' then i else 0)) cold' (attempt k usleep t) in
    if nat_eq i attempts
    then (error (append "Failed to open loopback device " (to_text num)), t)
    else elim (first_open k t (candidate_devices num)) [ some d ↦ (ok d, t) | none ↦ rest ]

-- What the loop devices depend on besides the kernel: the other block devices, `loop_wait_attempts`,
-- and the fuel of the polling.
pub record LoopHost : Type 0 where
  pub kernel : Kernel
  pub blocks : BlockDevices
  pub attempts : ℕ
  pub polls : ℕ
  -- LOOP_GET_STATUS64 of a device that can be opened: `lo_crypt_name`
  pub crypt_name : Trace → String → Option String

unfoldable pub wait_for_device : LoopHost → ℕ → Trace → Result String × Trace
wait_for_device h num t =
    poll_device h.kernel h.attempts num h.polls 0 (h.kernel.cold_boot_done t) t

-- The destructor clears the device where it could not be configured.
unfoldable pub create_loop_device : LoopHost → String → ℕ → ℕ → Trace → Result String × Trace
create_loop_device h target image_offset image_size t =
    let k = h.kernel in
    if not (k.can_open t "/dev/loop-control")
    then (error "Failed to open loop-control", t)
    else (elim (k.get_free t) [
      | none ↦ (error "Failed LOOP_CTL_GET_FREE", t)
      | some num ↦ and_then (wait_for_device h num t) (λ device t₁. or_undo k (loop_clr_fd device) (
          and_then (configure_loop_device k device target image_offset image_size t₁)
            (λ _ t₂. (ok device, t₂))))
    ])

-- The end of `CreateAndConfigureLoopDevice`: what is wrong with the scheduler is only logged, and so
-- it is with the queue depth, where the walk to the disk ends.
unfoldable pub tune_loop_device : LoopHost → String → String → Trace → Result String × Trace
tune_loop_device h target device t =
    let scheduled = configure_scheduler h.kernel device t in
    let queued = configure_queue_depth h.kernel h.blocks device target scheduled.1 in
    let tuned =
      and_then (configure_read_ahead h.kernel device queued.1) (λ _ t'. (ok device, t')) in
    elim queued.0 [ ok u ↦ tuned | error e ↦ tuned | abort ↦ (abort, queued.1) ]

unfoldable pub create_and_configure_loop_device :
    LoopHost → String → ℕ → ℕ → Trace → Result String × Trace
create_and_configure_loop_device h target image_offset image_size t =
    and_then (create_loop_device h target image_offset image_size t)
      (λ device t₁. or_undo h.kernel (loop_clr_fd device) (tune_loop_device h target device t₁))

-- The device is cleared if it is an APEX's.
unfoldable pub destroy_loop_device : LoopHost → String → Trace → Trace
destroy_loop_device h path t =
    if not (h.kernel.can_open t path) then t else (elim (h.crypt_name t path) [
      | none ↦ t
      | some id ↦ if starts_with id "apex:" then attempt h.kernel (loop_clr_fd path) t else t
    ])
