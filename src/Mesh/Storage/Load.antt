-- ===== src/Mesh/Storage/Load.antt =====
-- `ps_set` of storage.c: a setting read from flash is stored in the variable that its key names.
use zephyr_samples.Base.{ℕ, ◌%◌, Bool, Option, none, some, List, [], ◌∷◌, if◌then◌else◌}
use zephyr_samples.Base.Int.{ℤ, pos, ltb_ℤ}
use zephyr_samples.Base.Words.{signed16}
use zephyr_samples.Mesh.State.{App, with_light, with_temp, with_duv}

-- What `ps_set` is called with or calls. `name_next key` is the length that `settings_name_next`
-- returns, with whether it leaves `next` null; `strncmp_zero s t n` is whether `strncmp` returns 0;
-- `read_cb size` is what the callback returns, with the number that it writes, if it writes one.
pub record Reader : Type 0 where
  pub name_next : List ℕ → ℕ × Bool
  pub strncmp_zero : List ℕ → List ℕ → ℕ → Bool
  pub read_cb : ℕ → ℤ × Option ℕ
  pub enoent : ℤ

abbrev pub key_rc : List ℕ
key_rc = b'r' ∷ b'c' ∷ []

abbrev pub key_gdtt : List ℕ
key_gdtt = b'g' ∷ b'd' ∷ b't' ∷ b't' ∷ []

abbrev pub key_gpo : List ℕ
key_gpo = b'g' ∷ b'p' ∷ b'o' ∷ []

abbrev pub key_ld : List ℕ
key_ld = b'l' ∷ b'd' ∷ []

abbrev pub key_td : List ℕ
key_td = b't' ∷ b'd' ∷ []

abbrev pub key_dd : List ℕ
key_dd = b'd' ∷ b'd' ∷ []

abbrev pub key_ll : List ℕ
key_ll = b'l' ∷ b'l' ∷ []

abbrev pub key_llt : List ℕ
key_llt = b'l' ∷ b'l' ∷ b't' ∷ []

abbrev pub key_tlt : List ℕ
key_tlt = b't' ∷ b'l' ∷ b't' ∷ []

abbrev pub key_dlt : List ℕ
key_dlt = b'd' ∷ b'l' ∷ b't' ∷ []

abbrev pub key_lr : List ℕ
key_lr = b'l' ∷ b'r' ∷ []

abbrev pub key_tr : List ℕ
key_tr = b't' ∷ b'r' ∷ []

-- The assignments that a read makes to the variable at its address.
abbrev pub set_rc : ℕ → App → App
set_rc v w = record w { reset_counter = v % 256 }

abbrev pub set_gdtt : ℕ → App → App
set_gdtt v w = record w { ctl = record w.ctl { tt = v % 256 } }

abbrev pub set_gpo : ℕ → App → App
set_gpo v w = record w { ctl = record w.ctl { onpowerup = v % 256 } }

abbrev pub set_ld : ℕ → App → App
set_ld v w = with_light w (record w.ctl.light { def = v % 65536 })

abbrev pub set_td : ℕ → App → App
set_td v w = with_temp w (record w.ctl.temp { def = v % 65536 })

abbrev pub set_dd : ℕ → App → App
set_dd v w = with_duv w (record w.ctl.duv { def = signed16 (v % 65536) })

abbrev pub set_ll : ℕ → App → App
set_ll v w = with_light w (record w.ctl.light { last = v % 65536 })

abbrev pub set_llt : ℕ → App → App
set_llt v w = with_light w (record w.ctl.light { target = v % 65536 })

abbrev pub set_tlt : ℕ → App → App
set_tlt v w = with_temp w (record w.ctl.temp { target = v % 65536 })

abbrev pub set_dlt : ℕ → App → App
set_dlt v w = with_duv w (record w.ctl.duv { target = signed16 (v % 65536) })

abbrev pub set_lr : ℕ → App → App
set_lr v w = with_light w (record w.ctl.light { range = v % 4294967296 })

abbrev pub set_tr : ℕ → App → App
set_tr v w = with_temp w (record w.ctl.temp { range = v % 4294967296 })

abbrev pub store : (ℕ → App → App) → Option ℕ → App → App
store assign none w = w
store assign (some v) w = assign v w

-- `if (!strncmp(key, name, key_len)) { len = read_cb(cb_arg, &variable, size); }`
unfoldable pub read_if : Reader → List ℕ → ℕ → List ℕ → ℕ → (ℕ → App → App) → ℤ × App → ℤ × App
read_if r key key_len name size assign (len, w) =
    if r.strncmp_zero key name key_len
    then (let (len', v) = r.read_cb size in (len', store assign v w))
    else (len, w)

-- The variables of a key's reads in the order of the source.
unfoldable pub read_all : Reader → List ℕ → ℕ → ℤ × App → ℤ × App
unfolding read_if
read_all r key n s0 =
    let s1 = read_if r key n key_rc 1 set_rc s0 in
    let s2 = read_if r key n key_gdtt 1 set_gdtt s1 in
    let s3 = read_if r key n key_gpo 1 set_gpo s2 in
    let s4 = read_if r key n key_ld 2 set_ld s3 in
    let s5 = read_if r key n key_td 2 set_td s4 in
    let s6 = read_if r key n key_dd 2 set_dd s5 in
    let s7 = read_if r key n key_ll 2 set_ll s6 in
    let s8 = read_if r key n key_llt 2 set_llt s7 in
    let s9 = read_if r key n key_tlt 2 set_tlt s8 in
    let s10 = read_if r key n key_dlt 2 set_dlt s9 in
    let s11 = read_if r key n key_lr 4 set_lr s10 in read_if r key n key_tr 4 set_tr s11

unfoldable pub ps_set : Reader → List ℕ → App → ℤ × App
unfolding read_all
ps_set r key w =
    let (key_len, is_last) = r.name_next key in
    if is_last
    then (let (len, w1) = read_all r key key_len (pos 0, w) in
        (if ltb_ℤ len (pos 0) then len else pos 0, w1))
    else (r.enoent, w)
