-- ===== src/Examples.antt =====
-- Runs of the model on small inputs, and the theorems at them.
mod Data
mod Indices
mod Patches
mod Patterns
mod Ranges
mod Slots
mod Tables
mod Links
mod Tls
mod Copies
mod Marking
mod DataRelocs
mod Folding
mod Relinks
mod Coloring
mod Images
mod Finals
