-- ===== src/Lib.antt =====
-- Verification of seven of the samples, which are programs of their own and share nothing:
--
--   Mesh              samples/boards/nrf/mesh/onoff_level_lighting_vnd_app, a light on a Bluetooth mesh
--   Wpan              samples/net/wpan_serial, IEEE 802.15.4 packets over a serial line
--   Hci               samples/bluetooth/hci_uart, HCI packets that arrive over a serial line
--   Enigma            samples/userspace/shared_mem, an encoder between threads with shared buffers
--   Pong              samples/boards/bbc_microbit/pong, a game for one board or two
--   Philosophers      samples/philosophers, the dining philosophers
--   Battery           samples/boards/nrf/battery, the level of a battery by its discharge curve
--   Base              shared helpers: tests, lists, integers, w-bit words, disjoint bits
--
-- Wpan (src/main.c): the receiver, which the interrupt handler runs byte by byte, `slip_buffer` and
-- `try_write`; Framing: frames and the receiver; Writing: the loop of `try_write`; Station: the two
-- threads and what they do with a packet; Requests: an exchange with the host. A packet is the bytes of
-- its one fragment; pulling from an empty one, which the C code does not look at, gives `none`. The fuel
-- of `try_write` counts its rounds; one more than the length is enough when every round writes. What
-- `tx_thread` gives to the line is what `try_write` has written of each frame.
--
-- Hci (src/main.c): `isr_round` is a round of the loop of the interrupt handler, given how many bytes
-- are ready; `none` stands for a round that waits; Stream: the packets of a stream; Rounds: what a round
-- takes off the line.
--
-- Enigma: src/enc.c and the tables of src/main.h; Wheels: `calc_rev_wheel` and a pass through a wheel;
-- Paths: the counters, and a character; Messages: a message; Boot: the tables of the sample; Threads:
-- the turns of `pt`, `enc` and `ct` under their semaphore, in any order; Printed: what is printed in the
-- end, and where the threads stop.
--
-- Pong (src/main.c): the static variables are `Game`, and each callback is a function on it; Refresh: a
-- refresh of the display; Buttons: the events; Solo: a game of one; Link: a game of two. What `ble.c`
-- does is the list of its calls.
--
-- Philosophers (src/main.c): a table, and a step for each `take`, `drop` and change of phase; Forks: who
-- has which fork; Progress: who can go on. Forks are the default, mutexes.
--
-- Battery (src/battery.c): the driver calls are the fields of `Divider`; Level: one voltage; Order: two.
--
-- Mesh answers the Generic OnOff, Generic Level, Light Lightness, Light CTL and vendor models. A path
-- such as mesh/transition.c stands for the file of that name under the sample's src directory,
-- samples/boards/nrf/mesh/onoff_level_lighting_vnd_app/src. The program keeps one light, `*ctl`.
-- Messages reach the handlers of mesh/device_composition.c by the opcode tables at its end. A Set
-- handler drops repetitions, stores the target through `set_target` of mesh/state_binding.c, computes
-- a transition and starts its timer by mesh/transition.c, whose work handlers then carry the change
-- out tick by tick. When none runs, mesh/no_transition_work_handler.c settles the light and publishes.
-- storage.c saves states and restores them at power up; main.c gives the initial values, drives the
-- LEDs and resets the node after repeated power cycles.
--
--   Mesh/State        the state (`App`), the calls it makes of Zephyr (`Call`), and what it takes
--                     from Zephyr and the compiler (`Env`)
--   Mesh/Binding      mesh/state_binding.c; Range: targets in range, Level and Lightness
--   Mesh/Transition   mesh/transition.c: timing; Work: the handlers of the ticks; Remaining: the byte
--                     of the remaining time; Ticks, Completes: the run of a transition;
--                     Move: the run of a move
--   Mesh/Status       mesh/device_composition.c, the Get and publish functions with a transition
--   Mesh/Server       mesh/device_composition.c, the text that the Set handlers share; Handlers, Steps,
--                     Setup, CtlSetup, Vendor: the handlers; Tables: the opcode tables; Ranges: the
--                     cases of a Range Set; Ack, Quiet, Agree: a Set and its unacknowledged twin
--   Mesh/Storage      storage.c; Load: `ps_set`; Flash: what the settings hold after the calls made of
--                     them, a number under each key; Restore: what is restored from it
--   Mesh/Light        main.c; PowerUp: the state after a power up, and repeated power cycles, of which
--                     only the settings survive
--   Mesh/Idle         mesh/no_transition_work_handler.c
--   Mesh/Invariant    the validity of a state (`IsValid`), part by part: Messages, Handlers, Sets,
--                     Steps, Setup, Tables, Ticks, Boot; Reach: all events as a step relation;
--                     Safe: validity over its steps
--   Mesh/Arrival      an accepted Set message and the expiries that follow it, of the timer that the
--                     calls leave running; Words, Targets: servers and targets; Sets, Ctl: the handlers
--   Mesh/Tests        a concrete node and the theorems at it
--
-- A handler is a function from `App` to `App`. A call of Zephyr that others see is put in front of
-- `calls`; `k_uptime_get` returns the next reading of `Env.uptime`. Integers of C are natural numbers
-- or integers with the wrap-around of their width written out. Every `float` is its 32-bit pattern, and
-- its arithmetic is a parameter, of which nothing is assumed. No fuel is used: its only loop is the
-- timer, whose expiries are counted by `ticks`.
--
-- Not modelled of the other samples: prints and displayed texts; the set-up of threads, of the radio and
-- of the divider; ble.c of Pong, which calls the Bluetooth stack; sleeping times and priorities. The
-- samples that have no module are sequences of calls of drivers and subsystems.
--
-- Not modelled of Mesh: prints; the client models, whose handlers only print; the loop of `sqrt` in
-- mesh/state_binding.c, whose result is a parameter; GPIO and Bluetooth initialisation; the
-- messages that buttons publish (publisher.c); the kernel's timers and work queue, but for the steps
-- in Mesh/Invariant/Reach. A transition timer expires there only while its work is to run on.
pub mod Base
pub mod Mesh
pub mod Hci
pub mod Wpan
pub mod Enigma
pub mod Pong
pub mod Philosophers
pub mod Battery
