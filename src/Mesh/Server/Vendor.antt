-- ===== src/Mesh/Server/Vendor.antt =====
-- mesh/device_composition.c: the vendor model.
use zephyr_samples.Base.{ℕ, ◌+◌, ◌&&◌, Bool, if◌then◌else◌, leb, ◌==◌, List, [], ◌∷◌}
use zephyr_samples.Mesh.State.{App, Env, VendorState, Model, Ctx, op_3, le16, le32, k_uptime_get}
use zephyr_samples.Mesh.Light.{update_vnd_led_gpio}
use zephyr_samples.Mesh.Server.Setup.{send}

-- `CID_ZEPHYR` is 0x0002.
unfoldable pub vnd_get : Model → Ctx → App → App
unfolding send
vnd_get model ctx w =
    let w1 = record w { vnd = record w.vnd { response = 0xA578FEB3 } } in
    send (op_3 0x04 0x0002) (le16 w1.vnd.current ∷ le32 w1.vnd.response ∷ []) model ctx w1

unfoldable pub vnd_duplicate : Env → ℕ → Ctx → ℕ → VendorState → Bool
vnd_duplicate e tid ctx now v =
    v.last_tid == tid
    && (v.last_src_addr == ctx.addr
        && (v.last_dst_addr == ctx.recv_dst && leb now (v.last_msg_timestamp + e.k_seconds 6)))

unfoldable pub vnd_set_unack : Model → Ctx → List ℕ → App → App
unfolding vnd_duplicate update_vnd_led_gpio
vnd_set_unack model ctx buf w =
    let (current, buf1) = w.env.pull_le16 buf in
    let (tid, buf2) = w.env.pull_u8 buf1 in
    let (now, w1) = k_uptime_get w in
    if vnd_duplicate w1.env tid ctx now w1.vnd
    then w1
    else update_vnd_led_gpio (record w1 {
      vnd = record w1.vnd {
        last_tid = tid;
        last_src_addr = ctx.addr;
        last_dst_addr = ctx.recv_dst;
        last_msg_timestamp = now;
        current = current;
      };
    })

unfoldable pub vnd_set : Model → Ctx → List ℕ → App → App
unfolding vnd_set_unack vnd_get
vnd_set model ctx buf w = vnd_get model ctx (vnd_set_unack model ctx buf w)
