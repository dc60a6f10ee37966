-- ===== src/Mesh/Arrival/Sets.antt =====
-- The Set handlers of mesh/device_composition.c with one 16-bit value, with the ticks that follow.
use zephyr_samples.Mesh.Invariant.Sets
