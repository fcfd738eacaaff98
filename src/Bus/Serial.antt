-- ===== src/Bus/Serial.antt =====
-- The serial link of bus.rs: `write_serial_control`, `advance_serial` and what they call.
pub mod Laws
pub mod Transfer
use gbx.Prelude.{ℕ, zero, suc, ◌+◌, ◌-◌, ◌*◌, bit_and, bit_or, u8, ◌<<<◌}
use gbx.Prelude.{Bool, true, false, not, ◌&&◌, ◌||◌, ◌==◌, leb, ltb, is_set, if◌then◌else◌}
use gbx.Prelude.{List, [], ◌∷◌, ◌++◌}
use gbx.Io
use gbx.Io.{IoRegs, sb_index, sc_index}
use gbx.Bus.{Bus, reset_serial_state}

abbrev pub cycles_per_bit : ℕ
cycles_per_bit = 512

-- `write_serial_control`: a write of SC that may start a transfer.
unfoldable pub write_serial_control : Bus → ℕ → Bus
unfolding reset_serial_state
write_serial_control bus value =
    let prev_raw = Io.sc_raw bus.io in
    let raw = bit_and value 0x83 in
    let bus = record bus { io = Io.write bus.io sc_index raw } in
    if not (is_set (bit_and raw 0x80))
    then reset_serial_state bus
    else let started_now = bit_and prev_raw 0x80 == 0 || not bus.serial_active in
      let bus = record bus { serial_internal_clock = is_set (bit_and raw 0x01) } in
      if not started_now && bus.serial_active
      then bus
      else let bus = reset_serial_state bus in
        let pending = Io.read bus.io sb_index in
        record bus {
          serial_pending_data = pending;
          serial_shift_reg = pending;
          serial_bits_remaining = 8;
          serial_active = true;
          serial_counter = if bus.serial_internal_clock then cycles_per_bit else bus.serial_counter;
        }

-- `finish_serial_transfer`; `serial_out.push` appends.
unfoldable pub finish_serial_transfer : Bus → Bus
unfolding reset_serial_state
finish_serial_transfer bus =
    let bus = reset_serial_state bus in
    let io = Io.write bus.io sc_index (bit_and (Io.sc_raw bus.io) 0x01) in
    record bus {
      io = Io.set_if io (bit_or (Io.if_reg io) 0x08);
      serial_out = bus.serial_out ++ (bus.serial_pending_data ∷ []);
    }

abbrev serial_input_bit : ℕ
serial_input_bit = 0x01

-- `clock_serial_bit`: one bit is shifted out, and a one shifted in. `-` stops at 0 as
-- `saturating_sub` does.
unfoldable pub clock_serial_bit : Bus → Bus
unfolding finish_serial_transfer
clock_serial_bit bus =
    let shifted = bit_or (u8 (bus.serial_shift_reg <<< 1)) serial_input_bit in
    let left = bus.serial_bits_remaining - 1 in
    let bus = record bus {
      serial_shift_reg = shifted;
      serial_bits_remaining = left;
      io = Io.write bus.io sb_index shifted;
    } in
    if left == 0 then finish_serial_transfer bus else bus

-- One round of the loop of `advance_serial`: the cycles that are left, and the bus.
unfoldable pub tick : ℕ → Bus → ℕ × Bus
tick cycles bus =
    let counter = if bus.serial_counter == 0 then cycles_per_bit else bus.serial_counter in
    if leb counter cycles
    then (cycles - counter, clock_serial_bit (record bus { serial_counter = 0 }))
    else (0, record bus { serial_counter = counter - cycles })

-- `while self.serial_active && cycles > 0`, on fuel: a round uses up at least one cycle.
unfoldable pub advance_loop : ℕ → ℕ → Bus → ℕ × Bus
advance_loop zero cycles bus = (cycles, bus)
advance_loop (suc fuel) cycles bus = elim (bus.serial_active && ltb 0 cycles) [
  | true ↦ advance_loop fuel (tick cycles bus).0 (tick cycles bus).1
  | false ↦ (cycles, bus)
]

unfoldable pub advance_serial : Bus → ℕ → Bus
advance_serial bus cycles =
    if not bus.serial_active || not bus.serial_internal_clock
    then bus
    else (advance_loop cycles cycles bus).1
