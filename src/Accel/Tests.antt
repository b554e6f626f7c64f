-- ===== src/Accel/Tests.antt =====
-- The accelerometer on concrete samples.
use nileswan.Base.{◌≡◌, refl, true, false, arith}
use nileswan.Accel.{idle, read_accel_state, Sample, Accel, visible, receive, dma_irq_handler}
use nileswan.Accel.Laws.{Axis, dma_irq_handler_lem, IsValid}

abbrev pub at_rest : Sample
at_rest = record { x = 0; y = 0; z = 0xfc00 }

abbrev pub polled : Accel
polled = record {
  timing = 0x00503d58;
  timer_prescaler = 15;
  polling = true;
  state = read_accel_state;
  second_visible = false;
  first = at_rest;
  second = at_rest;
  chip_detected = true;
  i2c_enabled = true;
  counting = true;
  auto_reload = 10000;
}

polled-IsValid : IsValid polled
polled-IsValid = record { polls = refl }

-- The bytes 0xff and 0xe0 of x are -2, the bytes 0xc0 and 0x00 of z are -1024.
abbrev axis_x : Axis
axis_x = record { high = 0xff; low = 0xe0 }

abbrev axis_y : Axis
axis_y = record { high = 0; low = 0 }

abbrev axis_z : Axis
axis_z = record { high = 0xc0; low = 0 }

dma_irq_handler_lem_example :
    let arriving = receive (record { x = 0xe0ff; y = 0; z = 0x00c0 }) polled in
    (visible arriving ≡ visible polled)
    × ((visible (dma_irq_handler arriving)).x ≡ 0xfffe)
    × ((visible (dma_irq_handler arriving)).y ≡ 0)
    × ((visible (dma_irq_handler arriving)).z ≡ 0xfc00)
    × ((dma_irq_handler arriving).state ≡ idle)
dma_irq_handler_lem_example =
    dma_irq_handler_lem axis_x axis_y axis_z polled (omega arith, omega arith)
      (omega arith, omega arith) (omega arith, omega arith)
