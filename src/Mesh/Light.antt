-- ===== src/Mesh/Light.antt =====
-- main.c: initial values, LEDs, the end of a transition, and the reset by repeated power cycles.
use zephyr_samples.Base.{ℕ, ◌+◌, ◌/◌, ◌%◌, ◌^◌, ◌||◌, true, if◌then◌else◌, ltb, leb, ◌==◌, not}
use zephyr_samples.Base.Int.{pos, sub_ℕ}
use zephyr_samples.Base.Words.{to_u8}
use zephyr_samples.Mesh.State.{
  App, LightCtl, emit, pin_set, work_submit, mesh_reset, no_transition_work, state_off, state_on,
  state_default, state_restore, lightness_min, lightness_max, temp_min, temp_max,
}
use zephyr_samples.Mesh.Storage.{save_on_flash, reset_counter_id}
use zephyr_samples.Mesh.Binding.{constrain_lightness, constrain_temperature}

unfoldable pub light_default_var_init : LightCtl → LightCtl
light_default_var_init c = record c {
  tt = 0x00;
  onpowerup = state_default;
  light = record c.light {
    range_min = lightness_min;
    range_max = lightness_max;
    last = lightness_max;
    def = lightness_max;
    target = lightness_max;
  };
  temp = record c.temp {
    range_min = temp_min;
    range_max = temp_max;
    def = temp_max;
    target = temp_max;
  };
  duv = record c.duv { def = pos 0; target = pos 0 };
}

-- The first half of `light_default_status_init`: the ranges, and the values held within them.
unfoldable pub retrieve_ranges : LightCtl → LightCtl
unfolding constrain_lightness constrain_temperature
retrieve_ranges c =
    let l =
      if not (c.light.range == 0)
      then record c.light {
        range_max = c.light.range / 2 ^ 16 % 65536;
        range_min = c.light.range % 65536;
      }
      else c.light in
    let t =
      if not (c.temp.range == 0)
      then record c.temp {
        range_max = c.temp.range / 2 ^ 16 % 65536;
        range_min = c.temp.range % 65536;
      }
      else c.temp in
    record c {
      light = record l {
        last = constrain_lightness l l.last;
        def = constrain_lightness l l.def;
        target = constrain_lightness l l.target;
      };
      temp = record t {
        def = constrain_temperature t t.def;
        target = constrain_temperature t t.target;
      };
    }

-- Its second half: the state that the light takes at power up.
unfoldable pub power_up : LightCtl → LightCtl
power_up c =
    let c1 = record c {
      temp = record c.temp { current = c.temp.def };
      duv = record c.duv { current = c.duv.def };
    } in
    let c2 =
      if c1.onpowerup == state_off
      then record c1 { light = record c1.light { current = 0 } }
      else if c1.onpowerup == state_default
      then (if c1.light.def == 0
          then record c1 { light = record c1.light { current = c1.light.last } }
          else record c1 { light = record c1.light { current = c1.light.def } })
      else if c1.onpowerup == state_restore
      then record c1 {
        light = record c1.light { current = c1.light.target };
        temp = record c1.temp { current = c1.temp.target };
        duv = record c1.duv { current = c1.duv.target };
      }
      else c1 in
    record c2 {
      light = record c2.light { target = c2.light.current };
      temp = record c2.temp { target = c2.temp.current };
      duv = record c2.duv { target = c2.duv.current };
    }

unfoldable pub light_default_status_init : LightCtl → LightCtl
unfolding retrieve_ranges power_up
light_default_status_init c = power_up (retrieve_ranges c)

-- The pins: 1 is LED 1, 0 the light itself, 2 the power and 3 the colour.
unfoldable pub update_vnd_led_gpio : App → App
update_vnd_led_gpio w = emit (pin_set 1 (if w.vnd.current == state_on then 1 else 0)) w

unfoldable pub led_power : App → ℕ
led_power w =
    let e = w.env in
    let ratio = e.f_div (e.f_of_int (pos w.ctl.light.current)) (e.f_of_int (pos 65535)) in
    to_u8 (e.f_to_int (e.f_mul (e.f_of_int (pos 100)) ratio))

unfoldable pub led_color : App → ℕ
led_color w =
    let e = w.env in
    let above = e.f_of_int (sub_ℕ w.ctl.temp.current w.ctl.temp.range_min) in
    let width = e.f_of_int (sub_ℕ w.ctl.temp.range_max w.ctl.temp.range_min) in
    to_u8 (e.f_to_int (e.f_mul (e.f_of_int (pos 100)) (e.f_div above width)))

unfoldable pub update_led_gpio : App → App
update_led_gpio w = emit (pin_set 3 (if ltb (led_color w) 50 then 1 else 0)) (
    emit (pin_set 2 (if ltb (led_power w) 50 then 1 else 0))
      (emit (pin_set 0 w.ctl.light.current) w))

unfoldable pub update_light_state : App → App
unfolding update_led_gpio
update_light_state w =
    let w1 = update_led_gpio w in
    if w1.ctl.transition.counter == 0 || not w1.reset
    then emit (work_submit no_transition_work) (record w1 { reset = true })
    else w1

unfoldable pub short_time_multireset_bt_mesh_unprovisioning : App → App
unfolding save_on_flash
short_time_multireset_bt_mesh_unprovisioning w =
    let w1 =
      if leb 4 w.reset_counter
      then emit mesh_reset (record w { reset_counter = 0 })
      else record w { reset_counter = (w.reset_counter + 1) % 256 } in
    save_on_flash reset_counter_id w1

unfoldable pub reset_counter_timer_handler : App → App
unfolding save_on_flash
reset_counter_timer_handler w = save_on_flash reset_counter_id (record w { reset_counter = 0 })
