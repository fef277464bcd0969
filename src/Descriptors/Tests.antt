-- ===== src/Descriptors/Tests.antt =====
-- A TSS in the first 16 MiB of the kernel, and one behind them.
use ppo_os.Common.{◌/◌, ◌%◌, ◌^◌, ◌≡◌, ◌↔◌, refl, true, arith}
use ppo_os.Descriptors.{tss_descriptor, is_user_fault}
use ppo_os.Descriptors.Decode.{base_of, tss_descriptor_iff}

tss_descriptor_iff_example :
    (base_of (tss_descriptor 0xFFFFFFFF81234560) ≡ 0xFFFFFFFF81234560)
    ↔ (0xFFFFFFFF81234560 / 2 ^ 24 % 16 ≡ 0)
tss_descriptor_iff_example = tss_descriptor_iff 0xFFFFFFFF81234560 (omega arith)

lost_bits : base_of (tss_descriptor 0xFFFFFFFF81234560) ≡ 0xFFFFFFFF80234560
unfolding tss_descriptor
lost_bits = refl

user_fault : is_user_fault 14 6 0 ≡ true
unfolding is_user_fault
user_fault = refl
