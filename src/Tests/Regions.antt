-- ===== src/Tests/Regions.antt =====
-- MPU regions of port_cm7.c at concrete sizes.
use just_rt.Common.{◌≡◌, refl, arith, inr, some, none}
use just_rt.Kernel.{Mpu}
use just_rt.Mpu.{private_encoding, grow, set_task_private_data, store_private_data}
use just_rt.Mpu.Private.{Programmed, set_task_private_data-Programmed}
use just_rt.Tests.Fixture.{no_mpu}

private_encoding-kilobyte : private_encoding 1024 ≡ some 9
unfolding private_encoding grow
private_encoding-kilobyte = refl

-- Above 2 ^ 31 bytes the loop does not end.
private_encoding-too_large : private_encoding 2147483649 ≡ none
unfolding private_encoding grow
private_encoding-too_large = refl

-- A region of 64 bytes: its encoding is 5.
set_task_private_data-registers :
    set_task_private_data no_mpu 0x20410000 64
    ≡ some (store_private_data no_mpu 0x20410000 64 0x20410000 0x130B000B)
unfolding set_task_private_data private_encoding grow
set_task_private_data-registers = refl

set_task_private_data-Programmed_example :
    (m : Mpu) × (set_task_private_data no_mpu 0x20410000 64 ≡ some m)
    × Programmed no_mpu 0x20410000 64 m
set_task_private_data-Programmed_example =
    set_task_private_data-Programmed no_mpu 0x20410000 64 (inr (omega arith, omega arith, refl))
