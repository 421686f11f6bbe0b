-- ===== src/Config/Kernel.antt =====
-- daemon/retif_config.c, `save_rt_kernel_params`, `set_rt_kernel_params` and `restore_rt_kernel_params`, and
-- the files that daemon/retif_utils.c reads and writes for them.
use retif.Common.{Bool, true, false, not, Option, none, some, ◌==◌, if◌then◌else◌, ◌≡◌, refl}
use retif.Common.Int.{ℤ, pos, negsuc}
use retif.Config.{ConfSystem}

-- PROC_RR_TIMESLICE_FILE, PROC_RT_RUNTIME_FILE and PROC_RT_PERIOD_FILE.
pub data ProcFile : Type 0 where
  rr_timeslice_file rt_runtime_file rt_period_file : ProcFile

abbrev pub same_file : ProcFile → ProcFile → Bool
same_file rr_timeslice_file rr_timeslice_file = true
same_file rt_runtime_file rt_runtime_file = true
same_file rt_period_file rt_period_file = true
same_file _ _ = false

-- The kernel's side of the files, a parameter: which can be opened, and which values it takes.
pub record Proc : Type 0 where
  pub opens_read : ProcFile → Bool
  pub opens_write : ProcFile → Bool
  pub takes : ProcFile → ℤ → Bool

-- What stands in the files; `none` is a text that does not start with a number.
abbrev pub Contents : Type 0
Contents = ProcFile → Option ℤ

pub record ProcBackup : Type 0 where
  pub rr_timeslice : ℤ
  pub rt_runtime : ℤ

module _ (proc : Proc) where
  -- The result of the function, and the value, which stays as it was unless a number was read.
  unfoldable pub file_read_long : Contents → ProcFile → ℤ → ℤ × ℤ
  file_read_long files f value =
      if not (proc.opens_read f)
      then (negsuc 0, value)
      else elim (files f) [ none ↦ (pos 1, value) | some v ↦ (pos 0, v) ]

  -- `fprintf` writes into a buffer, and the kernel gets it from `fclose`, whose result is not looked at.
  unfoldable pub file_write_long : Contents → ProcFile → ℤ → ℤ × Contents
  file_write_long files f value = if not (proc.opens_write f) then (negsuc 0, files) else (
    pos 0,
    λ g. if same_file f g then (if proc.takes f value then some value else files g) else files g,
  )

  abbrev is_zero : ℤ → Bool
  is_zero (pos n) = n == 0
  is_zero (negsuc n) = false

  -- Two writes, the second if the first returned 0.
  abbrev write_both : Contents → ℤ → ℤ → ℤ × Contents
  write_both files timeslice runtime =
      let (res, files1) = file_write_long files rr_timeslice_file timeslice in
      if not (is_zero res) then (res, files1) else file_write_long files1 rt_runtime_file runtime

  unfoldable pub set_rt_kernel_params : {F : Type 0} → Contents → ConfSystem F → ℤ × Contents
  unfolding file_write_long
  set_rt_kernel_params files c = write_both files c.rr_timeslice (negsuc 0)

  unfoldable pub save_rt_kernel_params : Contents → ProcBackup → ℤ × ProcBackup
  unfolding file_read_long
  save_rt_kernel_params files b =
      let (res, timeslice) = file_read_long files rr_timeslice_file b.rr_timeslice in
      let (res', runtime) = file_read_long files rt_runtime_file b.rt_runtime in
      if not (is_zero res)
      then (res, record b { rr_timeslice = timeslice })
      else (res', record b { rr_timeslice = timeslice; rt_runtime = runtime })

  unfoldable pub restore_rt_kernel_params : Contents → ProcBackup → ℤ × Contents
  unfolding file_write_long
  restore_rt_kernel_params files b = write_both files b.rr_timeslice b.rt_runtime

  -- If both files can be opened for writing, hold the numbers `timeslice` and `runtime` and can be read,
  -- and the kernel takes its own values back, then saving returns 0, and restoring after the parameters
  -- were set returns 0 and leaves in both files what was in them, whatever the kernel made of the values
  -- that were set.
  pub restore_rt_kernel_params-save :
      {F : Type 0} (files : Contents) (c : ConfSystem F) (b : ProcBackup) (timeslice runtime : ℤ)
      → ((f : ProcFile) → proc.opens_read f ≡ true)
      → ((f : ProcFile) → proc.opens_write f ≡ true)
      → files rr_timeslice_file ≡ some timeslice
      → files rt_runtime_file ≡ some runtime
      → proc.takes rr_timeslice_file timeslice ≡ true
      → proc.takes rt_runtime_file runtime ≡ true
      → (let saved = save_rt_kernel_params files b in
          let set = set_rt_kernel_params files c in
          let restored = restore_rt_kernel_params set.1 saved.1 in
          (saved.0 ≡ pos 0)
          × (set.0 ≡ pos 0)
          × (restored.0 ≡ pos 0)
          × (restored.1 rr_timeslice_file ≡ files rr_timeslice_file)
          × (restored.1 rt_runtime_file ≡ files rt_runtime_file))
  unfolding save_rt_kernel_params set_rt_kernel_params restore_rt_kernel_params
  restore_rt_kernel_params-save files c b timeslice runtime reads writes at1 at2 ok1 ok2 =
      simp
        (
          reads rr_timeslice_file,
          reads rt_runtime_file,
          writes rr_timeslice_file,
          writes rt_runtime_file,
          at1,
          at2,
          ok1,
          ok2,
        )
        (refl, refl, refl, refl, refl)
