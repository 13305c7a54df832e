-- ===== src/Runtime.antt =====
-- The compute backends of a machine: src/jaull/domain/runtime_support.py. The set of the source is its
-- membership test.
pub mod Backend
pub mod Preferred
pub mod Executability
pub mod Grades
use jaull.Base.{
  Bool, true, false, not, ◌&&◌, ◌||◌, Option, none, some, List, [], ◌∷◌, any, if◌then◌else◌,
}
use jaull.Hardware.{
  HardwareProfile, AcceleratorProfile, GpuInfo, ComputeBackend, ComputeBackendInfo, is_software,
  is_available,
}

abbrev pub same_backend : ComputeBackend → ComputeBackend → Bool
same_backend ComputeBackend.cpu ComputeBackend.cpu = true
same_backend ComputeBackend.cuda ComputeBackend.cuda = true
same_backend ComputeBackend.vulkan ComputeBackend.vulkan = true
same_backend ComputeBackend.hip ComputeBackend.hip = true
same_backend _ _ = false

abbrev is_empty {ℓ} : {A : Type ℓ} → List A → Bool
is_empty [] = true
is_empty (_ ∷ _) = false

-- The accelerator offers the backend.
offers : ComputeBackend → AcceleratorProfile → Bool
offers backend accelerator =
    not (is_software accelerator.type)
    && any
        (λ item.
          is_available item.availability
          && not item.software_renderer
          && same_backend item.backend backend)
        accelerator.backends

-- `backend in available_compute_backends(hardware)`
unfoldable pub has_backend : ComputeBackend → HardwareProfile → Bool
unfolding offers
has_backend backend hardware =
    same_backend backend ComputeBackend.cpu
    || any (offers backend) hardware.accelerators
    || (same_backend backend ComputeBackend.cuda
        && not (is_empty hardware.gpus)
        && is_empty hardware.accelerators)

unfoldable pub quantized_transformers_supported : HardwareProfile → Bool
unfolding has_backend
quantized_transformers_supported hardware =
    has_backend ComputeBackend.cuda hardware || has_backend ComputeBackend.hip hardware

-- `available_compute_backends(hardware) == {ComputeBackend.CPU}`
unfoldable pub is_cpu_only : HardwareProfile → Bool
unfolding has_backend
is_cpu_only hardware = not (
    has_backend ComputeBackend.cuda hardware
    || has_backend ComputeBackend.vulkan hardware
    || has_backend ComputeBackend.hip hardware)
