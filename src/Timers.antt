-- ===== src/Timers.antt =====
-- The timer block (crates/04-services/kernel-core/src/timers.rs): DIV, TIMA, TMA and TAC over
-- the scalar bus, whose `TimerIo` methods are the accessors of `Io` and the latches of `Bus`.
-- The environment variable GBX_TIMER_SYNC_LOW is the parameter `sync_low`, the byte that it
-- holds or 8; the tracing prints are not modelled.
pub mod Edges
pub mod Overflow
use gbx.Prelude.{ℕ, zero, suc, ◌+◌, ◌-◌, ◌/◌, ◌%◌, min, bit_and, bit_or, u8, u16, not_u16}
use gbx.Prelude.{◌<<<◌, ◌>>>◌}
use gbx.Prelude.{Bool, true, false, not, ◌&&◌, ◌||◌, ◌==◌, ltb, is_set, if◌then◌else◌}
use gbx.Prelude.{Option, none, some}
use gbx.Io
use gbx.Bus
use gbx.Bus.{Bus}

pub data TimaState : Type 0 where
  running overflow_pending reloading : TimaState

pub record Timers : Type 0 where
  pub div_counter : ℕ
  pub timer_input : Bool
  pub tima_state : TimaState
  pub pending_reload_value : ℕ
  pub reload_delay : ℕ

-- `Timers::new`, and what `reset` restores
unfoldable pub new : Timers
new = record {
  div_counter = 8;
  timer_input = false;
  tima_state = TimaState.running;
  pending_reload_value = 0;
  reload_delay = 0;
}

-- The bit of the divider counter that TAC selects.
unfoldable pub tac_bit : ℕ → ℕ
tac_bit tac =
    let sel = bit_and tac 0x03 in
    if sel == 0 then 9 else if sel == 1 then 3 else if sel == 2 then 5 else 7

unfoldable pub compute_timer_input : ℕ → ℕ → Bool
unfolding tac_bit
compute_timer_input div_counter tac =
    if bit_and tac 0x04 == 0 then false else is_set (bit_and (div_counter >>> tac_bit tac) 0x01)

-- `tac_trigger_bit`
unfoldable pub tac_trigger_bit : ℕ → ℕ
tac_trigger_bit tac =
    let sel = bit_and tac 0x03 in
    if sel == 0
    then 1 <<< 9
    else if sel == 1
    then 1 <<< 3
    else if sel == 2
    then 1 <<< 5
    else 1 <<< 7

-- `initialize_post_boot`
unfoldable pub initialize_post_boot : ℕ → Timers → Bus → Timers × Bus
initialize_post_boot sync_low t bus =
    let counter = bit_or (0x03 <<< 8) sync_low in
    (
      record {
        div_counter = counter;
        timer_input = compute_timer_input counter (Io.tac bus.io);
        tima_state = TimaState.running;
        pending_reload_value = Io.tma bus.io;
        reload_delay = 0;
      },
      record bus { io = Io.set_div bus.io (u8 (counter >>> 8)) },
    )

-- `sync_div_from_high_byte`
unfoldable pub sync_div_from_high_byte : ℕ → Timers → ℕ → Timers
sync_div_from_high_byte sync_low t high = record t { div_counter = bit_or (high <<< 8) sync_low }

unfoldable pub increment_tima : Timers → Bus → Timers × Bus
increment_tima t bus =
    let tima = Io.tima bus.io in
    if tima == 0xFF
    then (
      record t {
        pending_reload_value = Io.tma bus.io;
        reload_delay = 4;
        tima_state = TimaState.overflow_pending;
      },
      record bus { io = Io.set_tima bus.io 0 },
    )
    else (t, record bus { io = Io.set_tima bus.io (u8 (tima + 1)) })

-- The body of `while io.take_div_reset()`.
unfoldable pub reset_div : Timers → Bus → Timers × Bus
reset_div t bus =
    let bus = record bus { timer_div_reset = false; io = Io.set_div bus.io 0 } in
    let new_input = compute_timer_input 0 (Io.tac bus.io) in
    let t' = record t { div_counter = 0 } in
    let (t', bus) = if t.timer_input && not new_input then increment_tima t' bus else (t', bus) in
    (record t' { timer_input = new_input }, bus)

-- The loop makes one round at most, since a round clears the latch.
unfoldable pub take_div_reset : Timers → Bus → Timers × Bus
take_div_reset t bus = if bus.timer_div_reset then reset_div t bus else (t, bus)

-- A pending write of TIMA, by the state of the reload.
unfoldable pub tima_written : TimaState → ℕ → Timers → Bus → Timers × Bus
tima_written TimaState.running value t bus = (t, record bus { io = Io.set_tima bus.io value })
tima_written TimaState.overflow_pending value t bus = (
  record t { tima_state = TimaState.running; reload_delay = 0 },
  record bus { io = Io.set_tima bus.io value },
)
tima_written TimaState.reloading value t bus =
    (t, record bus { io = Io.set_tima bus.io t.pending_reload_value })

unfoldable pub take_tima_write : Option ℕ → Timers → Bus → Timers × Bus
unfolding tima_written
take_tima_write none t bus = (t, bus)
take_tima_write (some value) t bus =
    tima_written t.tima_state value t (record bus { timer_tima_write = none })

unfoldable pub is_reloading : TimaState → Bool
is_reloading TimaState.reloading = true
is_reloading _ = false

-- `while let Some(value) = io.take_tma_write()`: the latch is empty after one round.
unfoldable pub take_tma_write : Option ℕ → Timers → Bus → Timers × Bus
unfolding is_reloading
take_tma_write none t bus = (t, bus)
take_tma_write (some value) t bus =
    let bus = record bus { timer_tma_write = none } in
    (
      record t { pending_reload_value = value },
      if is_reloading t.tima_state then record bus { io = Io.set_tima bus.io value } else bus,
    )

-- `while let Some((old_tac, new_tac)) = io.take_tac_write()`: likewise.
unfoldable pub take_tac_write : Option (ℕ × ℕ) → Timers → Bus → Timers × Bus
take_tac_write none t bus = (t, bus)
take_tac_write (some (old_tac, new_tac)) t bus =
    let bus = record bus { timer_tac_write = none } in
    let old_mask = tac_trigger_bit old_tac in
    let new_mask = tac_trigger_bit new_tac in
    let glitch =
      is_set (bit_and old_tac 0x04)
      && is_set (bit_and t.div_counter old_mask)
      && (bit_and new_tac 0x04 == 0 || bit_and t.div_counter new_mask == 0) in
    let (t', bus) = if glitch then increment_tima t bus else (t, bus) in
    (record t' { timer_input = compute_timer_input t'.div_counter new_tac }, bus)

-- `process_register_writes`
unfoldable pub process_register_writes : Timers → Bus → Timers × Bus
process_register_writes t bus =
    let (t, bus) = take_div_reset t bus in
    let (t, bus) = take_tima_write bus.timer_tima_write t bus in
    let (t, bus) = take_tma_write bus.timer_tma_write t bus in
    take_tac_write bus.timer_tac_write t bus

-- `advance_tima_state`, by the state of the reload
unfoldable pub advance_state : TimaState → ℕ → Timers → Bus → Timers × Bus
advance_state TimaState.running cycles t bus = (t, bus)
advance_state TimaState.overflow_pending cycles t bus =
    let delay = if ltb 0 t.reload_delay then t.reload_delay - u8 cycles else t.reload_delay in
    if delay == 0
    then (
      record t { reload_delay = delay; tima_state = TimaState.reloading },
      let io = Io.set_tima bus.io t.pending_reload_value in
          record bus { io = Io.set_if io (bit_or (Io.if_reg io) 0x04) },
    )
    else (record t { reload_delay = delay }, bus)
advance_state TimaState.reloading cycles t bus = (record t { tima_state = TimaState.running }, bus)

unfoldable pub advance_tima_state : ℕ → Timers → Bus → Timers × Bus
unfolding advance_state
advance_tima_state cycles t bus = advance_state t.tima_state cycles t bus

-- Whether the step from `old` to `new` clears the bit that TAC selects.
unfoldable pub is_triggered : ℕ → ℕ → ℕ → Bool
is_triggered tac old new =
    is_set (bit_and tac 0x04) && is_set (bit_and (bit_and old (not_u16 new)) (tac_trigger_bit tac))

-- `apply_div_increment` after its early return.
unfoldable pub increment_div : ℕ → Timers → Bus → Timers × Bus
unfolding is_triggered
increment_div delta t bus =
    let old = t.div_counter in
    let new = u16 (old + delta) in
    let t = record t { div_counter = new } in
    let bus = record bus { io = Io.set_div bus.io (u8 (new >>> 8)) } in
    let tac = Io.tac bus.io in
    let (t', bus) = if is_triggered tac old new then increment_tima t bus else (t, bus) in
    (record t' { timer_input = compute_timer_input t'.div_counter tac }, bus)

unfoldable pub apply_div_increment : ℕ → Timers → Bus → Timers × Bus
apply_div_increment delta t bus = if delta == 0 then (t, bus) else increment_div delta t bus

-- One round of the loop of `step`, of at most four cycles.
unfoldable pub step_round : ℕ → Timers → Bus → Timers × Bus
step_round step t bus =
    let (t, bus) = advance_tima_state step t bus in apply_div_increment step t bus

-- `while remaining > 0`, on fuel: a round uses up at least one cycle.
unfoldable pub step_loop : ℕ → ℕ → Timers → Bus → Timers × Bus
step_loop zero remaining t bus = (t, bus)
step_loop (suc fuel) remaining t bus =
    let step = min remaining 4 in
    let next = step_round step t bus in
    elim (ltb 0 remaining) [
      | true ↦ step_loop fuel (remaining - step) next.0 next.1
      | false ↦ (t, bus)
    ]

unfoldable pub step : ℕ → Timers → Bus → Timers × Bus
step cycles t bus = let (t, bus) = process_register_writes t bus in step_loop cycles cycles t bus
