-- ===== src/Mesh/Invariant.antt =====
-- What is asked of the light between two events (`IsValid`), for the parts of the handlers.
pub mod Messages
pub mod Handlers
pub mod Sets
pub mod Steps
pub mod Setup
pub mod Ticks
pub mod Reach
pub mod Tables
pub mod Safe
pub mod Boot
use zephyr_samples.Base.{
  ℕ, ◌+◌, ◌%◌, ◌≤◌, ◌<◌, ◌≡◌, refl, sym, subst, ◌∙◌, Bool, true, false, List, some, none, arith,
  if◌then◌else◌, ◌==◌, ◌||◌, Bool-cases, inl, inr,
}
use zephyr_samples.Base.Int.{ℤ}
use zephyr_samples.Base.Words.{to_u16-lt}
use zephyr_samples.Mesh.State.{
  App, Env, LightCtl, Lightness, Temperature, Transition, Model, Ctx, Opcode, Field, StateBinding,
  onoff, level_light, delta_level_light, move_light, actual, linear, ctl_light, level_temp,
  move_temp, ctl_temp, ctl_delta_uv, TimerHandler, temp_min, temp_max, move,
}
use zephyr_samples.Mesh.Storage.{save_on_flash}
use zephyr_samples.Mesh.Binding.{
  constrain_lightness, constrain_target_lightness2, constrain_temperature, linear_to_actual,
  level_to_light_ctl_temp, store_target, set_target,
}
use zephyr_samples.Mesh.Light.{update_led_gpio, update_light_state}
use zephyr_samples.Mesh.Transition.{
  calculate_rt, set_transition_counter, set_light_delta, set_temp_delta, set_duv_delta, set_deltas,
  set_transition_values,
}
use zephyr_samples.Mesh.Transition.Work.{start_timer, end_light, end_temp, end_duv}
use zephyr_samples.Mesh.Status.{status_fields, send_status, publish_status}

-- The ranges are in order and as wide as the models allow, what is stored in 16 bits fits them, the
-- default and the current transition time are known, and a transition has at most ten steps to go.
pub record IsValid (c : LightCtl) : Type 0 where
  pub light_min : 0 < c.light.range_min
  pub light_order : c.light.range_min ≤ c.light.range_max
  pub light_max : c.light.range_max < 65536
  pub temp_low : temp_min ≤ c.temp.range_min
  pub temp_order : c.temp.range_min ≤ c.temp.range_max
  pub temp_high : c.temp.range_max ≤ temp_max
  pub light_current : c.light.current < 65536
  pub light_target : c.light.target < 65536
  pub light_def : c.light.def < 65536
  pub light_last : c.light.last < 65536
  pub temp_current : c.temp.current < 65536
  pub temp_target : c.temp.target < 65536
  pub temp_def : c.temp.def < 65536
  pub default_tt : c.tt % 64 ≤ 62
  pub current_tt : c.transition.tt % 64 ≤ 62
  pub power_up : c.onpowerup ≤ 2
  pub steps : c.transition.counter ≤ 10

-- `f` keeps the invariant, and the environment is what it was.
abbrev pub Good : (App → App) → Type 0
Good f = (w : App) → (IsValid w.ctl → IsValid (f w).ctl) × ((f w).env ≡ w.env)

-- What `Good` says at one state; it holds of a test if it holds of both branches.
abbrev pub Kept : App → App → Type 0
Kept w v = (IsValid w.ctl → IsValid v.ctl) × (v.env ≡ w.env)

pub Kept-if :
    (t : Bool) (w x y : App)
    → (t ≡ true → Kept w x)
    → (t ≡ false → Kept w y)
    → Kept w (if t then x else y)
Kept-if true w x y p q = p refl
Kept-if false w x y p q = q refl

pub Kept-trans : (u v w : App) → Kept u v → Kept v w → Kept u w
Kept-trans u v w p q = (λ h. q.0 (p.0 h), q.1 ∙ p.1)

pub Good-compose : (f g : App → App) → Good f → Good g → Good (λ w. g (f w))
Good-compose f g p q w = (λ v. (q (f w)).0 ((p w).0 v), (q (f w)).1 ∙ (p w).1)

pub save_on_flash-Good : (id : ℕ) → Good (save_on_flash id)
unfolding save_on_flash
save_on_flash-Good id w = (λ v. v, refl)

-- What is held to the range, or was computed for it, fits.
constrain_lightness-lt :
    (c : LightCtl) (x : ℕ) → IsValid c → x < 65536 → constrain_lightness c.light x < 65536
unfolding constrain_lightness
constrain_lightness-lt c x h lt = ground arith

constrain_temperature-lt :
    (c : LightCtl) (x : ℕ) → IsValid c → x < 65536 → constrain_temperature c.temp x < 65536
unfolding constrain_temperature
constrain_temperature-lt c x h lt = ground arith

linear_to_actual-lt : (e : Env) (x : ℕ) → linear_to_actual e x < 65536
unfolding linear_to_actual
linear_to_actual-lt e x = to_u16-lt _

level_to_light_ctl_temp-lt :
    (e : Env) (t : Temperature) (v : ℤ) → level_to_light_ctl_temp e t v < 65536
unfolding level_to_light_ctl_temp
level_to_light_ctl_temp-lt e t v = omega arith

-- Assigning a target that fits, to the light or to the temperature.
with_light_target :
    (c : LightCtl) (x : ℕ)
    → x < 65536
    → IsValid c
    → IsValid (record c { light = record c.light { target = x } })
with_light_target c x lt h = omega arith

with_temp_target :
    (c : LightCtl) (x : ℕ)
    → x < 65536
    → IsValid c
    → IsValid (record c { temp = record c.temp { target = x } })
with_temp_target c x lt h = omega arith

constrained_target :
    (c : LightCtl) (x : ℕ)
    → x < 65536
    → IsValid c
    → IsValid (record c { light = record c.light { target = constrain_lightness c.light x } })
constrained_target c x lt h = with_light_target c _ (constrain_lightness-lt c x h lt) h

delta_target :
    (c : LightCtl) (x : ℕ)
    → x < 65536
    → IsValid c
    → IsValid (record c { light = constrain_target_lightness2 (record c.light { target = x }) })
unfolding constrain_target_lightness2
delta_target c x lt h = ground arith

onoff_target :
    (v : ℤ) (w : App)
    → (IsValid w.ctl → IsValid (store_target onoff v w).ctl)
      × ((store_target onoff v w).env ≡ w.env)
unfolding store_target
onoff_target v w = (λ h. ground arith, ground arith)

store_target-Good : (b : StateBinding) (v : ℤ) → Good (store_target b v)
unfolding store_target
store_target-Good onoff v w = onoff_target v w
store_target-Good level_light v w = (constrained_target w.ctl _ (to_u16-lt _), refl)
store_target-Good delta_level_light v w = (delta_target w.ctl _ (to_u16-lt _), refl)
store_target-Good move_light v w = (with_light_target w.ctl _ (to_u16-lt _), refl)
store_target-Good actual v w = (constrained_target w.ctl _ (to_u16-lt _), refl)
store_target-Good linear v w = (constrained_target w.ctl _ (linear_to_actual-lt w.env _), refl)
store_target-Good ctl_light v w = (constrained_target w.ctl _ (to_u16-lt _), refl)
store_target-Good level_temp v w =
    (with_temp_target w.ctl _ (level_to_light_ctl_temp-lt w.env w.ctl.temp _), refl)
store_target-Good move_temp v w = (with_temp_target w.ctl _ (to_u16-lt _), refl)
store_target-Good ctl_temp v w =
    (λ h. with_temp_target w.ctl _ (constrain_temperature-lt w.ctl _ h (to_u16-lt _)) h, refl)
store_target-Good ctl_delta_uv v w = (λ h. omega arith, refl)

pub set_target-Good : (b : StateBinding) (v : ℤ) → Good (set_target b v)
unfolding set_target save_on_flash
set_target-Good b v w = (
  λ h. ground (arith, (store_target-Good b v w).0 h),
  ground (arith, (store_target-Good b v w).1),
)

-- Timing, status messages and the timer.
calculate_rt-Good : Good calculate_rt
unfolding calculate_rt
calculate_rt-Good w = (λ h. ground arith, ground arith)

pub send_status-Good :
    (op : Opcode) (settled : App → Bool) (present target : App → List Field) (model : Model)
    (ctx : Ctx)
    → Good (λ w. send_status op (settled w) present target model ctx w)
unfolding send_status status_fields
send_status-Good op settled present target model ctx w =
    elim (Bool-cases (settled w || w.ctl.transition.counter == 0)) [
      | inl e ↦ rw e (λ h. h, refl)
      | inr e ↦ rw e (calculate_rt-Good w)
    ]

pub publish_status-Good :
    (op : Opcode) (present target : App → List Field) (model : Model)
    → Good (publish_status op present target model)
unfolding publish_status status_fields
publish_status-Good op present target model w =
    elim (Bool-cases (model.pub_addr == w.env.addr_unassigned)) [
      | inl e ↦ rw e (λ h. h, refl)
      | inr e ↦ rw e (elim (Bool-cases (w.ctl.transition.counter == 0)) [
        | inl z ↦ rw z (λ h. h, refl)
        | inr z ↦ rw z (calculate_rt-Good w)
      ])
    ]

pub update_light_state-Good : Good update_light_state
unfolding update_light_state update_led_gpio
update_light_state-Good w = (λ h. ground arith, ground arith)

pub start_timer-Good : (expiry : TimerHandler) → Good (start_timer expiry)
unfolding start_timer
start_timer-Good expiry w = (
  λ h. ground (arith, (update_light_state-Good w).0 h),
  ground (arith, (update_light_state-Good w).1),
)

set_light_delta-Good : Good set_light_delta
unfolding set_light_delta
set_light_delta-Good w = (λ h. omega arith, refl)

set_temp_delta-Good : Good set_temp_delta
unfolding set_temp_delta
set_temp_delta-Good w = (λ h. omega arith, refl)

set_duv_delta-Good : Good set_duv_delta
unfolding set_duv_delta
set_duv_delta-Good w = (λ h. omega arith, refl)

set_deltas-Good : (b : StateBinding) → Good (set_deltas b)
unfolding set_deltas
set_deltas-Good onoff w = set_light_delta-Good w
set_deltas-Good level_light w = set_light_delta-Good w
set_deltas-Good actual w = set_light_delta-Good w
set_deltas-Good linear w = set_light_delta-Good w
set_deltas-Good ctl_light w =
    Good-compose set_light_delta (λ v. set_duv_delta (set_temp_delta v)) set_light_delta-Good
      (Good-compose set_temp_delta set_duv_delta set_temp_delta-Good set_duv_delta-Good) w
set_deltas-Good level_temp w = set_temp_delta-Good w
set_deltas-Good ctl_temp w =
    Good-compose set_temp_delta set_duv_delta set_temp_delta-Good set_duv_delta-Good w
set_deltas-Good delta_level_light w = (λ h. h, refl)
set_deltas-Good _ w = (λ h. h, refl)

-- The counter that is set has at most ten steps, and the time stays what it was.
counter_set :
    (e : Env) (t : Transition)
    → t.counter ≤ 10
    → ((set_transition_counter e t).1.counter ≤ 10) × ((set_transition_counter e t).1.tt ≡ t.tt)
unfolding set_transition_counter
counter_set e t h = (ground arith, ground arith)

with_timed :
    (c : LightCtl) (t : Transition)
    → t.counter ≤ 10
    → t.tt % 64 ≤ 62
    → IsValid c
    → IsValid (record c { transition = t })
with_timed c t h1 h2 h = omega arith

pub set_transition_values-Good : (b : StateBinding) → Good (set_transition_values b)
unfolding set_transition_values
set_transition_values-Good b w =
    let t = (set_transition_counter w.env w.ctl.transition).1 in
    let set = λ (h : IsValid w.ctl). counter_set w.env w.ctl.transition h.steps in
    let known =
      λ (h : IsValid w.ctl). subst (λ (x : ℕ). x % 64 ≤ 62) (sym (set h).1) h.current_tt in
    elim (Bool-cases (set_transition_counter w.env w.ctl.transition).0) [
      | inl e ↦ rw e (elim (Bool-cases (t.type == move)) [
        | inl m ↦ rw m (λ h. with_timed w.ctl _ (set h).0 (known h) h, refl)
        | inr m ↦ rw m (
          λ h. (set_deltas-Good b _).0 (with_timed w.ctl _ (set h).0 (known h) h),
          (set_deltas-Good b _).1,
        )
      ])
      | inr e ↦ rw e (λ h. with_timed w.ctl t (set h).0 (known h) h, refl)
    ]

-- The assignments that end a transition at once.
pub end_light-Good : Good end_light
unfolding end_light
end_light-Good w = (λ h. omega arith, refl)

pub end_temp-Good : Good end_temp
unfolding end_temp
end_temp-Good w = (λ h. omega arith, refl)

pub end_duv-Good : Good end_duv
unfolding end_duv
end_duv-Good w = (λ h. omega arith, refl)
