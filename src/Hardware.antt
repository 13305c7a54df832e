-- ===== src/Hardware.antt =====
-- The hardware profile: src/jaull/domain/hardware.py.
pub mod Memory
use jaull.Base.{
  ℕ, String, Bool, true, false, not, ◌&&◌, ◌||◌, Option, none, some, List, ◌++◌, map, max_of, any,
  choose, if◌then◌else◌,
}

pub record CpuInfo : Type 0 where
  pub model : Option String
  pub physical_cores : Option ℕ
  pub logical_cores : Option ℕ

pub record MemoryInfo : Type 0 where
  pub total_bytes : ℕ
  pub available_bytes : ℕ

pub record StorageInfo : Type 0 where
  pub mountpoint : String
  pub total_bytes : ℕ
  pub available_bytes : ℕ

pub data AcceleratorVendor : Type 0 where
  nvidia amd intel other unknown : AcceleratorVendor

pub data AcceleratorType : Type 0 where
  dedicated integrated software unknown : AcceleratorType

pub data ComputeBackend : Type 0 where
  cpu cuda vulkan hip : ComputeBackend

pub data BackendAvailability : Type 0 where
  available unavailable unknown : BackendAvailability

pub data BackendAvailabilityReason : Type 0 where
  probe_available probe_failed not_checked vendor_not_supported software_renderer_only
        runtime_not_installed device_not_visible not_implemented :
      BackendAvailabilityReason

pub record ComputeBackendInfo : Type 0 where
  pub backend : ComputeBackend
  pub availability : BackendAvailability
  pub reason : Option BackendAvailabilityReason
  pub source : Option String
  pub detail : Option String
  pub api_version : Option String
  pub device_name : Option String
  pub driver_name : Option String
  pub driver_version : Option String
  pub software_renderer : Bool

pub record AcceleratorProfile : Type 0 where
  pub name : String
  pub vendor : AcceleratorVendor
  pub type : AcceleratorType
  pub vendor_id : Option String
  pub device_id : Option String
  pub pci_bus_id : Option String
  pub uuid : Option String
  pub dedicated_memory_bytes : Option ℕ
  pub available_memory_bytes : Option ℕ
  pub shared_memory : Bool
  pub detection_sources : List String
  pub backends : List ComputeBackendInfo

pub record GpuInfo : Type 0 where
  pub name : String
  pub vram_total_bytes : ℕ
  pub vram_available_bytes : ℕ
  pub driver_version : Option String
  pub cuda_version : Option String

pub record HardwareProfile : Type 0 where
  pub os : String
  pub os_version : Option String
  pub arch : String
  pub cpu : CpuInfo
  pub memory : MemoryInfo
  pub storage : List StorageInfo
  pub gpus : List GpuInfo
  pub accelerators : List AcceleratorProfile
  pub warnings : List String

-- The enum tests of the source, `x is E.member`.
abbrev pub is_dedicated : AcceleratorType → Bool
is_dedicated AcceleratorType.dedicated = true
is_dedicated _ = false

abbrev pub is_software : AcceleratorType → Bool
is_software AcceleratorType.software = true
is_software _ = false

abbrev pub is_available : BackendAvailability → Bool
is_available BackendAvailability.available = true
is_available _ = false

-- `field`, of a dedicated accelerator that shares no memory.
abbrev pub dedicated_value : (AcceleratorProfile → Option ℕ) → AcceleratorProfile → Option ℕ
dedicated_value field a = if is_dedicated a.type && not a.shared_memory then field a else none

unfoldable pub planning_accelerator_memory_bytes : HardwareProfile → Option ℕ
planning_accelerator_memory_bytes hardware = max_of (
    map (λ gpu. gpu.vram_total_bytes) hardware.gpus
    ++ choose (dedicated_value (λ a. a.dedicated_memory_bytes)) hardware.accelerators)

unfoldable pub available_accelerator_memory_bytes : HardwareProfile → Option ℕ
available_accelerator_memory_bytes hardware = max_of (
    map (λ gpu. gpu.vram_available_bytes) hardware.gpus
    ++ choose (dedicated_value (λ a. a.available_memory_bytes)) hardware.accelerators)

unfoldable pub has_usable_accelerator : HardwareProfile → Bool
has_usable_accelerator hardware =
    any (λ (_ : GpuInfo). true) hardware.gpus
    || any
        (λ a.
          not (is_software a.type) && any (λ backend. is_available backend.availability) a.backends)
        hardware.accelerators
