-- ===== src/Mesh/Server/Agree.antt =====
-- mesh/device_composition.c: each Set handler against its unacknowledged twin.
use zephyr_samples.Base.{ℕ, ◌≡◌, List}
use zephyr_samples.Mesh.State.{App, Model, Ctx}
use zephyr_samples.Mesh.Server.Ack.{without_rt}

-- The two handlers leave the same state, but for the remaining time worked out for the answer.
abbrev pub Agree :
    (Model → Ctx → List ℕ → App → App)
    → (Model → Ctx → List ℕ → App → App)
    → Model
    → Ctx
    → List ℕ
    → App
    → Type 0
Agree set set_unack model ctx buf w =
    without_rt (set model ctx buf w).ctl ≡ without_rt (set_unack model ctx buf w).ctl
