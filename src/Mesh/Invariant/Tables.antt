-- ===== src/Mesh/Invariant/Tables.antt =====
-- mesh/device_composition.c: validity for the handlers of each opcode table.
use zephyr_samples.Base.{ℕ, zero, suc, ◌≡◌, refl, subst, List, [], ◌∷◌, get_elem?, some, arith}
use zephyr_samples.Mesh.State.{Model, Ctx}
use zephyr_samples.Mesh.Server.Tables.{
  Op, gen_onoff_srv_op, gen_level_srv_op, gen_def_trans_time_srv_op, gen_power_onoff_srv_op,
  gen_power_onoff_setup_srv_op, light_lightness_srv_op, light_lightness_setup_srv_op,
  light_ctl_srv_op, light_ctl_setup_srv_op, light_ctl_temp_srv_op, vnd_ops, gen_level_srv_op_temp,
}
use zephyr_samples.Mesh.Invariant.Handlers.{
  gen_onoff_get-Good, gen_level_get-Good, light_lightness_get-Good, light_lightness_linear_get-Good,
  light_ctl_get-Good, light_ctl_temp_get-Good, gen_level_get_temp-Good,
}
use zephyr_samples.Mesh.Invariant.Sets
use zephyr_samples.Mesh.Invariant.Steps
use zephyr_samples.Mesh.Invariant.Setup
use zephyr_samples.Mesh.Invariant.Setup.{Words, Held, Good-Held}
use zephyr_samples.Mesh.Invariant.Reach.{tables}
use zephyr_samples.Mesh.Status.{
  gen_onoff_get, gen_level_get, light_lightness_get, light_lightness_linear_get, light_ctl_get,
  light_ctl_temp_get, gen_level_get_temp,
}
use zephyr_samples.Mesh.Server.Handlers.{
  gen_onoff_set, gen_onoff_set_unack, gen_level_set, gen_level_set_unack, light_lightness_set,
  light_lightness_set_unack, light_lightness_linear_set, light_lightness_linear_set_unack,
  light_ctl_set, light_ctl_set_unack, light_ctl_temp_set, light_ctl_temp_set_unack,
  gen_level_set_temp, gen_level_set_unack_temp,
}
use zephyr_samples.Mesh.Server.Steps.{
  gen_delta_set, gen_delta_set_unack, gen_move_set, gen_move_set_unack, gen_delta_set_temp,
  gen_delta_set_unack_temp, gen_move_set_temp, gen_move_set_unack_temp,
}
use zephyr_samples.Mesh.Server.Setup.{
  gen_def_trans_time_get, gen_onpowerup_get, light_lightness_last_get, light_lightness_default_get,
  light_lightness_range_get,
}
use zephyr_samples.Mesh.Server.CtlSetup.{light_ctl_temp_range_get, light_ctl_default_get}
use zephyr_samples.Mesh.Server.Vendor.{vnd_get, vnd_set, vnd_set_unack}
use zephyr_samples.Mesh.Server.Tables.{vnd_status}

-- Every element of a list has `P`.
abbrev pub Each : {A : Type 0} → (A → Type 0) → List A → Type 0
Each P [] = Unit
Each P (x ∷ xs) = P x × Each P xs

pub each_at :
    {A : Type 0} (P : A → Type 0) (xs : List A) (i : ℕ) (x : A)
    → Each P xs
    → get_elem? xs i ≡ some x
    → P x
each_at P [] i x h e = grind arith
each_at P (y ∷ ys) zero x h e = subst P (grind arith) h.0
each_at P (y ∷ ys) (suc i) x h e = each_at P ys i x h.1 e

-- A handler of a table keeps the invariant, whatever the message is.
abbrev pub OpHeld : Op → Type 0
OpHeld o = (model : Model) (ctx : Ctx) (buf : List ℕ) → Held (o.func model ctx buf)

gen_onoff_srv_op-Held : Each OpHeld gen_onoff_srv_op
unfolding gen_onoff_srv_op
gen_onoff_srv_op-Held = (
  (λ m c b. Good-Held (gen_onoff_get m c) (gen_onoff_get-Good m c)),
  (
    (λ m c b. Good-Held (gen_onoff_set m c b) (Sets.gen_onoff_set-Good m c b)),
    ((λ m c b. Good-Held (gen_onoff_set_unack m c b) (Sets.gen_onoff_set_unack-Good m c b)), tt),
  ),
)

gen_level_srv_op-Held : Each OpHeld gen_level_srv_op
unfolding gen_level_srv_op
gen_level_srv_op-Held = (
  (λ m c b. Good-Held (gen_level_get m c) (gen_level_get-Good m c)),
  (
    (λ m c b. Good-Held (gen_level_set m c b) (Sets.gen_level_set-Good m c b)),
    (
      (λ m c b. Good-Held (gen_level_set_unack m c b) (Sets.gen_level_set_unack-Good m c b)),
      (
        (λ m c b. Good-Held (gen_delta_set m c b) (Steps.gen_delta_set-Good m c b)),
        (
          (λ m c b. Good-Held (gen_delta_set_unack m c b) (Steps.gen_delta_set_unack-Good m c b)),
          (
            (λ m c b. Good-Held (gen_move_set m c b) (Steps.gen_move_set-Good m c b)),
            (
              (λ m c b. Good-Held (gen_move_set_unack m c b) (Steps.gen_move_set_unack-Good m c b)),
              tt,
            ),
          ),
        ),
      ),
    ),
  ),
)

gen_def_trans_time_srv_op-Held : Each OpHeld gen_def_trans_time_srv_op
unfolding gen_def_trans_time_srv_op
gen_def_trans_time_srv_op-Held = (
  (λ m c b. Good-Held (gen_def_trans_time_get m c) (Setup.gen_def_trans_time_get-Good m c)),
  (Setup.gen_def_trans_time_set-Held, (Setup.gen_def_trans_time_set_unack-Held, tt)),
)

gen_power_onoff_srv_op-Held : Each OpHeld gen_power_onoff_srv_op
unfolding gen_power_onoff_srv_op
gen_power_onoff_srv_op-Held =
    ((λ m c b. Good-Held (gen_onpowerup_get m c) (Setup.gen_onpowerup_get-Good m c)), tt)

gen_power_onoff_setup_srv_op-Held : Each OpHeld gen_power_onoff_setup_srv_op
unfolding gen_power_onoff_setup_srv_op
gen_power_onoff_setup_srv_op-Held =
    (Setup.gen_onpowerup_set-Held, (Setup.gen_onpowerup_set_unack-Held, tt))

light_lightness_srv_op-Held : Each OpHeld light_lightness_srv_op
unfolding light_lightness_srv_op
light_lightness_srv_op-Held = (
  (λ m c b. Good-Held (light_lightness_get m c) (light_lightness_get-Good m c)),
  (
    (λ m c b. Good-Held (light_lightness_set m c b) (Sets.light_lightness_set-Good m c b)),
    (
      (λ m c b.
          Good-Held (light_lightness_set_unack m c b) (Sets.light_lightness_set_unack-Good m c b)),
      (
        (λ m c b. Good-Held (light_lightness_linear_get m c) (light_lightness_linear_get-Good m c)),
        (
          (λ m c b.
              Good-Held (light_lightness_linear_set m c b)
                (Sets.light_lightness_linear_set-Good m c b)),
          (
            (λ m c b.
                Good-Held (light_lightness_linear_set_unack m c b)
                  (Sets.light_lightness_linear_set_unack-Good m c b)),
            (
              (λ m c b.
                  Good-Held (light_lightness_last_get m c)
                    (Setup.light_lightness_last_get-Good m c)),
              (
                (λ m c b.
                    Good-Held (light_lightness_default_get m c)
                      (Setup.light_lightness_default_get-Good m c)),
                (
                  (λ m c b.
                      Good-Held (light_lightness_range_get m c)
                        (Setup.light_lightness_range_get-Good m c)),
                  tt,
                ),
              ),
            ),
          ),
        ),
      ),
    ),
  ),
)

light_lightness_setup_srv_op-Held : Each OpHeld light_lightness_setup_srv_op
unfolding light_lightness_setup_srv_op
light_lightness_setup_srv_op-Held = (
  Setup.light_lightness_default_set-Held,
  (
    Setup.light_lightness_default_set_unack-Held,
    (Setup.light_lightness_range_set-Held, (Setup.light_lightness_range_set_unack-Held, tt)),
  ),
)

light_ctl_srv_op-Held : Each OpHeld light_ctl_srv_op
unfolding light_ctl_srv_op
light_ctl_srv_op-Held = (
  (λ m c b. Good-Held (light_ctl_get m c) (light_ctl_get-Good m c)),
  (
    (λ m c b. Good-Held (light_ctl_set m c b) (Sets.light_ctl_set-Good m c b)),
    (
      (λ m c b. Good-Held (light_ctl_set_unack m c b) (Sets.light_ctl_set_unack-Good m c b)),
      (
        (λ m c b.
            Good-Held (light_ctl_temp_range_get m c) (Setup.light_ctl_temp_range_get-Good m c)),
        (
          (λ m c b. Good-Held (light_ctl_default_get m c) (Setup.light_ctl_default_get-Good m c)),
          tt,
        ),
      ),
    ),
  ),
)

light_ctl_setup_srv_op-Held : Each OpHeld light_ctl_setup_srv_op
unfolding light_ctl_setup_srv_op
light_ctl_setup_srv_op-Held = (
  Setup.light_ctl_default_set-Held,
  (
    Setup.light_ctl_default_set_unack-Held,
    (Setup.light_ctl_temp_range_set-Held, (Setup.light_ctl_temp_range_set_unack-Held, tt)),
  ),
)

light_ctl_temp_srv_op-Held : Each OpHeld light_ctl_temp_srv_op
unfolding light_ctl_temp_srv_op
light_ctl_temp_srv_op-Held = (
  (λ m c b. Good-Held (light_ctl_temp_get m c) (light_ctl_temp_get-Good m c)),
  (
    (λ m c b. Good-Held (light_ctl_temp_set m c b) (Sets.light_ctl_temp_set-Good m c b)),
    (
      (λ m c b.
          Good-Held (light_ctl_temp_set_unack m c b) (Sets.light_ctl_temp_set_unack-Good m c b)),
      tt,
    ),
  ),
)

vnd_ops-Held : Each OpHeld vnd_ops
unfolding vnd_ops vnd_status
vnd_ops-Held = (
  (λ m c b. Good-Held (vnd_get m c) (Setup.vnd_get-Good m c)),
  (
    (λ m c b. Good-Held (vnd_set m c b) (Setup.vnd_set-Good m c b)),
    (
      (λ m c b. Good-Held (vnd_set_unack m c b) (Setup.vnd_set_unack-Good m c b)),
      ((λ m c b w words. (λ h. h, refl)), tt),
    ),
  ),
)

gen_level_srv_op_temp-Held : Each OpHeld gen_level_srv_op_temp
unfolding gen_level_srv_op_temp
gen_level_srv_op_temp-Held = (
  (λ m c b. Good-Held (gen_level_get_temp m c) (gen_level_get_temp-Good m c)),
  (
    (λ m c b. Good-Held (gen_level_set_temp m c b) (Sets.gen_level_set_temp-Good m c b)),
    (
      (λ m c b.
          Good-Held (gen_level_set_unack_temp m c b) (Sets.gen_level_set_unack_temp-Good m c b)),
      (
        (λ m c b. Good-Held (gen_delta_set_temp m c b) (Steps.gen_delta_set_temp-Good m c b)),
        (
          (λ m c b.
              Good-Held (gen_delta_set_unack_temp m c b)
                (Steps.gen_delta_set_unack_temp-Good m c b)),
          (
            (λ m c b. Good-Held (gen_move_set_temp m c b) (Steps.gen_move_set_temp-Good m c b)),
            (
              (λ m c b.
                  Good-Held (gen_move_set_unack_temp m c b)
                    (Steps.gen_move_set_unack_temp-Good m c b)),
              tt,
            ),
          ),
        ),
      ),
    ),
  ),
)

pub tables-Held : Each (Each OpHeld) tables
tables-Held = (
  gen_onoff_srv_op-Held,
  (
    gen_level_srv_op-Held,
    (
      gen_def_trans_time_srv_op-Held,
      (
        gen_power_onoff_srv_op-Held,
        (
          gen_power_onoff_setup_srv_op-Held,
          (
            light_lightness_srv_op-Held,
            (
              light_lightness_setup_srv_op-Held,
              (
                light_ctl_srv_op-Held,
                (
                  light_ctl_setup_srv_op-Held,
                  (light_ctl_temp_srv_op-Held, (vnd_ops-Held, (gen_level_srv_op_temp-Held, tt))),
                ),
              ),
            ),
          ),
        ),
      ),
    ),
  ),
)
