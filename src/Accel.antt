-- ===== src/Accel.antt =====
-- firmware/src/accel.c: the accelerometer, read over I2C by three interrupt handlers into the buffer
-- that is not shown. Waits for the bus and for the state to be idle are the hardware's.
pub mod Laws
pub mod Tests
use nileswan.Base.{
  ℕ, ◌+◌, ◌-◌, ◌*◌, ◌/◌, ◌%◌, Bool, true, false, not, ◌&&◌, ◌||◌, List, [], ◌∷◌, u16, ◌==◌, ◌!=◌,
  ltb, if◌then◌else◌,
}

-- `State`
pub data State : Type 0 where
  idle send_addr read_accel_state : State

-- Three axes, each a 16-bit word.
pub record Sample : Type 0 where
  pub x : ℕ
  pub y : ℕ
  pub z : ℕ

-- The static variables. `first` and `second` are the rows of `accel_data`, `second_visible` is
-- `visible_accel_state`; `i2c_enabled`, `counting` and `auto_reload` are the I2C and timer
-- registers.
pub record Accel : Type 0 where
  pub timing : ℕ
  pub timer_prescaler : ℕ
  pub polling : Bool
  pub state : State
  pub second_visible : Bool
  pub first : Sample
  pub second : Sample
  pub chip_detected : Bool
  pub i2c_enabled : Bool
  pub counting : Bool
  pub auto_reload : ℕ

-- `__builtin_bswap16`, and `>> 4` on an `int16_t`, which copies the sign bit down
swap_bytes : ℕ → ℕ
swap_bytes w = w % 256 * 256 + w / 256

shift_signed : ℕ → ℕ
shift_signed w = if ltb w 0x8000 then w / 16 else w / 16 + 0xf000

unfoldable pub convert_axis : ℕ → ℕ
unfolding swap_bytes shift_signed
convert_axis w = shift_signed (swap_bytes w)

convert_sample : Sample → Sample
unfolding convert_axis
convert_sample s = record { x = convert_axis s.x; y = convert_axis s.y; z = convert_axis s.z }

unfoldable pub visible : Accel → Sample
visible a = if a.second_visible then a.second else a.first

hidden : Accel → Sample
hidden a = if a.second_visible then a.first else a.second

put_hidden : Sample → Accel → Accel
put_hidden s a = if a.second_visible then record a { first = s } else record a { second = s }

-- What the DMA channel does between the request and its interrupt.
unfoldable pub receive : Sample → Accel → Accel
unfolding put_hidden
receive s a = put_hidden s a

-- DMA1_Ch4_7_DMA2_Ch1_5_DMAMUX_OVR_IRQHandler
unfoldable pub dma_irq_handler : Accel → Accel
unfolding put_hidden hidden convert_sample
dma_irq_handler a =
    let done = put_hidden (convert_sample (hidden a)) a in
    record done { state = idle; second_visible = not a.second_visible }

-- What the I2C peripheral's flags say when its handler runs.
pub data I2cFlags : Type 0 where
  error complete empty other : I2cFlags

after_i2c : State → I2cFlags → State
after_i2c s error = idle
after_i2c send_addr complete = read_accel_state
after_i2c s _ = s

-- I2C1_IRQHandler
unfoldable pub i2c_irq_handler : I2cFlags → Accel → Accel
unfolding after_i2c
i2c_irq_handler flags a = record a { state = after_i2c a.state flags }

start_transfer : State → State
start_transfer idle = send_addr
start_transfer s = s

-- TIM6_DAC_LPTIM1_IRQHandler
unfoldable pub timer_irq_handler : Accel → Accel
unfolding start_transfer
timer_irq_handler a = record a { state = start_transfer a.state }

-- `__write_control_reg`; `acknowledged` is whether the chip answers.
write_control_reg : Bool → Accel → Accel
write_control_reg acknowledged a = record a { chip_detected = acknowledged }

-- `accel_init`, as far as it changes this state
unfoldable pub accel_init : Bool → Accel → Accel
unfolding write_control_reg
accel_init acknowledged a =
    write_control_reg acknowledged (record a { i2c_enabled = true; auto_reload = 1000000 })

poll_pause : Accel → Accel
poll_pause a = if a.polling then record a { counting = false } else a

poll_resume : Accel → Accel
poll_resume a =
    if a.polling && a.i2c_enabled && a.chip_detected then record a { counting = true } else a

-- The table of `accel_adjust_i2c_timing`
unfoldable pub i2c_timing : ℕ → ℕ
i2c_timing freq =
    if freq == 4 * 1000 * 1000
    then 0x00100d14
    else if freq == 6 * 1000 * 1000
    then 0x0020171d
    else if freq == 12 * 1000 * 1000
    then 0x00402d41
    else if freq == 16 * 1000 * 1000
    then 0x00503d58
    else if freq == 24 * 1000 * 1000
    then 0x00805c87
    else if freq == 48 * 1000 * 1000
    then 0x10805d88
    else 0

-- `accel_adjust_i2c_timing`; `freq` is at least TIMERHZ.
unfoldable pub adjust_i2c_timing : ℕ → Accel → Accel
unfolding i2c_timing poll_pause poll_resume
adjust_i2c_timing freq a =
    let new_prescaler = freq / 1000000 - 1 in
    if new_prescaler == a.timer_prescaler
    then a
    else (let paused =
          poll_pause (record a { timing = i2c_timing freq; timer_prescaler = new_prescaler }) in
        if paused.timing != 0 then poll_resume paused else paused)

-- `accel_enable_poll`; the timer's reload value is computed in 32 bits.
unfoldable pub enable_poll : Bool → Bool → ℕ → Accel → Accel
unfolding poll_pause poll_resume write_control_reg
enable_poll acknowledged enable hz a =
    if (a.polling && not enable) || (not a.polling && enable)
    then (let written = write_control_reg acknowledged (poll_pause a) in
        poll_resume
          (record written { polling = enable; auto_reload = 1000000 / (if enable then hz else 1) }))
    else a

-- `accel_deinit`
unfoldable pub accel_deinit : Bool → Accel → Accel
unfolding enable_poll
accel_deinit acknowledged a = record (enable_poll acknowledged false 0 a) { i2c_enabled = false }

-- `accel_is_enabled`
unfoldable pub accel_is_enabled : Accel → Bool
accel_is_enabled a = a.chip_detected && a.i2c_enabled

-- The bytes that `accel_copy_state` copies, low byte first.
unfoldable pub copy_state : Accel → List ℕ
copy_state a =
    let s = visible a in s.x % 256 ∷ s.x / 256 ∷ s.y % 256 ∷ s.y / 256 ∷ s.z % 256 ∷ s.z / 256 ∷ []
