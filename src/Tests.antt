-- ===== src/Tests.antt =====
-- Runs of the model on concrete inputs.
mod Placement
mod Sizes
mod Choices
mod Ladders
mod Variants
mod Runtimes
mod Headers
mod Merges
mod Plans
mod Variety
