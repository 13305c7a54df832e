-- ===== src/Fit/Bytes.antt =====
-- The fallback without a block count finds the largest allocation that fits VRAM.
use jaull.Base.{ℕ, ◌+◌, ◌≤◌, ◌<◌, ◌≡◌, refl, Option, none, some, arith, ap, [], ◌∷◌}
use jaull.Estimation.{
  HardwareMemoryTopology, HardwareFitPlacementMethod, HardwareFitResult, Warning,
}
use jaull.Fit.Floats.{Floats, IsRounded}
use jaull.Fit.Placement.{Demand, OffloadPlacement, place, place_kv_cache}
use jaull.Fit.Offload.{
  Supply, fits_vram, byte_placement, byte_ceiling, best_byte_placement, try_byte_offload,
  offload_result_from_placement,
}
use jaull.Fit.Conserve.{IsExact}
use jaull.Fit.Loops.{Feasible, admissible_parts, search_bytes_largest}
use jaull.Fit.Monotone.{calculate_lem, calculate_built, calculate_offload_placement_mono}

module _ (fl : Floats) (r : IsRounded fl) (d : Demand) (x : IsExact d) (s : Supply)
    (t : Option ℕ) where
  -- `m` bytes of weights on the GPU fit VRAM.
  abbrev pub BytesFit : ℕ → Type 0
  BytesFit = Feasible (byte_placement fl d t) (fits_vram fl d s)

  BytesFit-below : (a b : ℕ) → 0 < a → a ≤ b → BytesFit b → BytesFit a
  unfolding byte_placement fits_vram
  BytesFit-below a b pos le f =
      let (_, below, _) = calculate_lem fl d t none b f.built in
      let e = calculate_built fl d t none a pos (omega arith) in
      let (less, _) = calculate_offload_placement_mono fl r d t none a b x le e f.built in
      record { placement = _; built = e; fitting = ground (arith, f.fitting) }

  BytesFit-le-ceiling : (m : ℕ) → BytesFit m → (0 < m) × (m ≤ byte_ceiling fl d s)
  unfolding byte_placement fits_vram byte_ceiling place place_kv_cache
  BytesFit-le-ceiling m f =
      let (pos, below, here) = calculate_lem fl d t none m f.built in
      let lower : m + d.kv_cache_bytes + d.device_reserve_bytes ≤ f.placement.gpu_required_bytes =
        rw here (omega arith) in
      (pos, ground (arith, f.fitting))

  -- If some allocation fits VRAM, the binary search returns one that is at least as large and
  -- still fits, within the fuel of one round for each byte.
  pub best_byte_placement_largest :
      (m : ℕ)
      → BytesFit m
      → (n : ℕ) × (p : OffloadPlacement) × (best_byte_placement fl d s t ≡ some p)
        × (byte_placement fl d t n ≡ some p)
        × (p.gpu_required_bytes ≤ s.available_vram)
        × (m ≤ n)
  unfolding best_byte_placement fits_vram
  best_byte_placement_largest m f =
      let (pos, le) = BytesFit-le-ceiling m f in
      let (n, p, found, at, best) =
        search_bytes_largest (byte_placement fl d t) (fits_vram fl d s) BytesFit-below
          (byte_ceiling fl d s + 1) 1 (byte_ceiling fl d s) none m f pos le (omega arith)
          (omega arith) refl in
      let (built, fits) = admissible_parts (byte_placement fl d t) (fits_vram fl d s) n at in
      (n, p, found, built, ground arith, best)

  -- If some allocation fits VRAM while the rest fits system memory, the fallback returns a result,
  -- and it puts at least that much weight on the GPU.
  pub try_byte_offload_largest :
      (topology : HardwareMemoryTopology) (m : ℕ) (f : BytesFit m)
      → f.placement.ram_required_bytes ≤ s.available_ram
      → (fit : HardwareFitResult) × (try_byte_offload fl d s t topology ≡ some fit)
        × (m ≤ fit.gpu_weight_bytes)
  unfolding try_byte_offload offload_result_from_placement byte_placement byte_ceiling place
  try_byte_offload_largest topology m f ram =
      let (n, p, found, built, fits, best) = best_byte_placement_largest m f in
      let (_, less) = calculate_offload_placement_mono fl r d t none m n x best f.built built in
      let (pos, le) = BytesFit-le-ceiling m f in
      let (_, _, here) = calculate_lem fl d t none n built in
      let weight : p.gpu_weight_bytes ≡ n = ap (λ y. y.gpu_weight_bytes) here in
      (
        offload_result_from_placement d s p HardwareFitPlacementMethod.estimated_bytes topology
            (Warning.block_count_unavailable ∷ []) none,
        ground arith,
        omega arith,
      )
