-- ===== src/Boot/Tests.antt =====
-- A small menu file, for the laws of software/ipl1/src/boot/main.c.
use nileswan.Base.{◌==◌, refl, if◌then◌else◌, arith}
use nileswan.Boot.{Disk, load_menu}
use nileswan.Boot.Fill.{MenuLoaded}
use nileswan.Boot.Laws.{load_menu_lem}

-- Forty bytes, of which the last sixteen are a jump to segment 0x2000 and zeros
abbrev menu_file : Disk
menu_file = record {
  mount = 0;
  open_file = 0;
  size = 40;
  byte = λ p. if p == 24 then 234 else if p == 28 then 32 else 0;
  read_result = λ p. 0;
}

load_menu_lem_example : MenuLoaded menu_file (λ a. 255) (load_menu menu_file (λ a. 255))
load_menu_lem_example =
    load_menu_lem menu_file (λ p. refl) (omega arith) (λ a. 255) refl refl (omega arith)
