-- ===== src/Mesh/Tests/Node.antt =====
-- A node as it is after its first power up, in an environment with concrete functions: bytes are read
-- in little-endian order, and a fixed-point arithmetic stands for `float`.
use zephyr_samples.Base.{
  ℕ, suc, ◌+◌, ◌*◌, ◌-◌, ◌/◌, ◌%◌, ◌≡◌, true, false, Bool, List, [], ◌∷◌, length, ltb, ◌==◌,
  if◌then◌else◌, some, refl, arith,
}
use zephyr_samples.Base.Int.{ℤ, pos, negsuc}
use zephyr_samples.Mesh.State.{
  App, Env, LightCtl, Lightness, Temperature, DeltaUv, Transition, Model, Ctx,
}
use zephyr_samples.Mesh.Storage.Load.{Reader}
use zephyr_samples.Mesh.Storage.Restore.{same_prefix, one_part, Serves}

abbrev zero_point : ℕ
zero_point = 1099511627776

abbrev pub pull_u8 : List ℕ → ℕ × List ℕ
pull_u8 [] = (0, [])
pull_u8 (a ∷ s) = (a % 256, s)

abbrev pub pull_le16 : List ℕ → ℕ × List ℕ
pull_le16 [] = (0, [])
pull_le16 (a ∷ []) = (a % 256, [])
pull_le16 (a ∷ b ∷ s) = (a % 256 + b % 256 * 256, s)

abbrev pull_le32 : List ℕ → ℕ × List ℕ
pull_le32 s =
    let (low, s1) = pull_le16 s in let (high, s2) = pull_le16 s1 in (low + high * 65536, s2)

abbrev f_of_int : ℤ → ℕ
f_of_int (pos n) = zero_point + n * 65536
f_of_int (negsuc n) = zero_point - suc n * 65536

abbrev f_to_int : ℕ → ℤ
f_to_int x =
    if ltb x zero_point
    then (if (zero_point - x) / 65536 == 0 then pos 0 else negsuc ((zero_point - x) / 65536 - 1))
    else pos ((x - zero_point) / 65536)

abbrev f_div : ℕ → ℕ → ℕ
f_div a b =
    if ltb a zero_point
    then zero_point - (zero_point - a) * 65536 / (b - zero_point)
    else zero_point + (a - zero_point) * 65536 / (b - zero_point)

abbrev f_mul : ℕ → ℕ → ℕ
f_mul a b = zero_point + (a - zero_point) * (b - zero_point) / 65536

abbrev pub env : Env
env = record {
  uptime = λ n. 1000 * n;
  k_seconds = λ n. 1000 * n;
  addr_unassigned = 0;
  is_provisioned = true;
  root_models = λ n. record { id = n; pub_addr = 0xC000 };
  s0_models = λ n. record { id = 100 + n; pub_addr = 0xC000 };
  pull_u8 = pull_u8;
  pull_le16 = pull_le16;
  pull_le32 = pull_le32;
  buf_len = length;
  f_of_int = f_of_int;
  f_to_int = f_to_int;
  f_div = f_div;
  f_mul = f_mul;
  f_add = λ a b. a + b - zero_point;
  f_eq = ◌==◌;
  f_sqrt = λ x. x;
}

abbrev pub light : Lightness
light = record {
  current = 65535;
  target = 65535;
  def = 65535;
  last = 65535;
  status_code = 0;
  range_min = 1;
  range_max = 65535;
  range = 0;
  delta = pos 0;
}

abbrev pub temp : Temperature
temp = record {
  current = 20000;
  target = 20000;
  def = 20000;
  status_code = 0;
  range_min = 800;
  range_max = 20000;
  range = 0;
  delta = pos 0;
}

abbrev pub duv : DeltaUv
duv = record { current = pos 0; target = pos 0; def = pos 0; delta = pos 0 }

abbrev pub still : Transition
still = record {
  just_started = false;
  type = 0;
  tt = 0;
  rt = 0;
  delay = 0;
  quo_tt = 0;
  counter = 0;
  total_duration = 0;
  start_timestamp = 0;
}

abbrev pub ctl : LightCtl
ctl = record {
  light = light;
  temp = temp;
  duv = duv;
  onpowerup = 1;
  tt = 0;
  last_tid = 0;
  last_src_addr = 0;
  last_dst_addr = 0;
  last_msg_timestamp = 0;
  transition = still;
}

abbrev pub node : App
node = record {
  env = env;
  ctl = ctl;
  vnd = record {
    current = 0;
    response = 0;
    last_tid = 0;
    last_src_addr = 0;
    last_dst_addr = 0;
    last_msg_timestamp = 0;
  };
  reset = true;
  storage_id = 0;
  reset_counter = 1;
  delta_unack_last_level = pos 0;
  delta_last_level = pos 0;
  delta_unack_temp_last_level = pos 0;
  delta_temp_last_level = pos 0;
  readings = 9;
  calls = [];
}

-- A node in the middle of a transition to 100 with three steps to go.
abbrev pub moving : App
moving = record node {
  ctl = record ctl {
    light = record light { current = 10; target = 100; delta = negsuc 29 };
    transition = record still {
      just_started = true;
      type = 2;
      tt = 3;
      quo_tt = 100;
      counter = 3;
      total_duration = 300;
    };
  };
}

abbrev pub model : Model
model = record { id = 2; pub_addr = 0xC000 }

abbrev pub ctx : Ctx
ctx = record { addr = 5; recv_dst = 2 }

-- `settings_name_next`: the length of the first part, and whether no part follows.
unfoldable pub name_next : List ℕ → ℕ × Bool
name_next [] = (0, true)
name_next (c ∷ s) =
    let (n, last) = name_next s in
    if c == b'/' then (0, false) else if c == b'=' then (0, true) else (suc n, last)

-- A reader that finds `v` under whatever key it is asked for.
abbrev pub reader : ℕ → Reader
reader v = record {
  name_next = name_next;
  strncmp_zero = same_prefix;
  read_cb = λ size. (pos size, some v);
  enoent = negsuc 1;
}

name_next-whole : (key : List ℕ) → one_part key ≡ true → name_next key ≡ (length key, true)
unfolding name_next
name_next-whole [] h = refl
name_next-whole (c ∷ s) h = rw (name_next-whole s (ground arith)) (ground arith)

pub reader-Serves : (v : ℕ) → Serves (reader v) v
reader-Serves v = record { whole = name_next-whole; compares = refl; reads = refl }
