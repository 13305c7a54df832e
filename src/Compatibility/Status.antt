-- ===== src/Compatibility/Status.antt =====
-- What a status says about the total and the pools, where the assessment is by the total alone.
use jaull.Base.{ℕ, ◌+◌, ◌*◌, ◌≤◌, ◌<◌, ◌≡◌, Option, none, some, arith, ◌⊎◌}
use jaull.Inference.{TargetDevice}
use jaull.Estimation.{CompatibilityStatus, CompatibilityAssessment}
use jaull.Compatibility.{
  status_from_ratio, assess_single, summary, assess_ram, assess_auto, vram_if_gpu, ram_if_cpu,
  prefixed,
}

-- The known capacity of the device that the model would run on.
abbrev pub pool : TargetDevice → Option ℕ → ℕ → Option ℕ
pool TargetDevice.gpu vram ram = vram
pool TargetDevice.cpu vram ram = some ram
pool TargetDevice.auto vram ram = none

-- Strictly more than `low` and at most `high` percent of a known capacity.
abbrev pub Share : ℕ → ℕ → ℕ → Option ℕ → Type 0
Share low high total none = ⊥
Share low high total (some capacity) =
    (low * capacity < 100 * total ⊎ (low ≡ 0)) × (100 * total ≤ high * capacity)

-- More than the RAM, and more than both pools together where there is VRAM.
abbrev pub BeyondAll : ℕ → Option ℕ → ℕ → Type 0
BeyondAll total none ram = ram < total
BeyondAll total (some vram) ram = vram + ram < total

-- More than the VRAM, and no more than both pools together. The RAM alone may hold it as well.
abbrev pub FitsTogether : ℕ → Option ℕ → ℕ → Type 0
FitsTogether total none ram = ⊥
FitsTogether total (some vram) ram = (vram < total) × (total ≤ vram + ram)

-- The bands are 75, 90 and 100 percent of the pool of the effective device. The status is unknown
-- where that pool is empty and the total is zero, so that there is no ratio.
abbrev pub Says : CompatibilityStatus → TargetDevice → ℕ → Option ℕ → ℕ → Type 0
Says CompatibilityStatus.comfortable device total vram ram = Share 0 75 total (pool device vram ram)
Says CompatibilityStatus.compatible device total vram ram = Share 75 90 total (pool device vram ram)
Says CompatibilityStatus.tight device total vram ram = Share 90 100 total (pool device vram ram)
Says CompatibilityStatus.offloading_required device total vram ram = FitsTogether total vram ram
Says CompatibilityStatus.insufficient device total vram ram = BeyondAll total vram ram
Says CompatibilityStatus.unknown device total vram ram =
    (total ≡ 0) × (pool device vram ram ≡ some 0)

abbrev pub Truthful : CompatibilityAssessment → ℕ → Option ℕ → ℕ → Type 0
Truthful a total vram ram = Says a.status a.effective_device total vram ram

-- Without a named device, the status of a known total is truthful: comfortable, compatible and tight
-- are the bands of 75, 90 and 100 percent of the pool of the effective device; where offloading is
-- required, the total exceeds the VRAM and is at most both pools together, whether or not the RAM
-- alone would hold it; where it is insufficient, the total exceeds all the pools together; and where
-- it is unknown, the total is zero and the pool of the effective device is known and empty.
pub assess_auto-Truthful :
    (total : ℕ) (vram : Option ℕ) (ram : ℕ) → Truthful (assess_auto total vram ram) total vram ram
unfolding assess_auto assess_ram summary assess_single status_from_ratio vram_if_gpu ram_if_cpu
    prefixed
assess_auto-Truthful total none ram = ground arith
assess_auto-Truthful total (some vram) ram = ground arith
