-- ===== src/Mesh/Arrival/Ctl.antt =====
-- The OnOff, CTL and CTL temperature Set handlers of mesh/device_composition.c, with the ticks that
-- follow.
use zephyr_samples.Mesh.Invariant.Sets
