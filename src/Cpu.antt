-- ===== src/Cpu.antt =====
-- kernel/src/src/cpu.c and the registers that `syscall_init` of kernel/src/src/syscall.c sets. The model-specific
-- registers are a function from their numbers to their values.
pub mod Messages
use ppo_os.Common.{ℕ, ◌*◌, ◌^◌, bit_or, ◌==◌, if◌then◌else◌}
use ppo_os.Syscall.{Kernel, syscall_init}

abbrev pub Msrs : Type 0
Msrs = ℕ → ℕ

abbrev pub write_msr : Msrs → ℕ → ℕ → Msrs
write_msr m msr value k = if k == msr then value else m k

-- MSR_EFER, MSR_STAR, MSR_LSTAR, MSR_FMASK
abbrev pub msr_efer : ℕ
msr_efer = 0xC0000080

abbrev pub msr_star : ℕ
msr_star = 0xC0000081

abbrev pub msr_lstar : ℕ
msr_lstar = 0xC0000082

abbrev pub msr_fmask : ℕ
msr_fmask = 0xC0000084

-- The registers that `syscall_init` writes; the data selector is 0x10, the code selector 0x08.
unfoldable pub syscall_msrs : ℕ → Msrs → Msrs
syscall_msrs syscall_asm_entry m =
    let efer = write_msr m msr_efer (bit_or (m msr_efer) 1) in
    let lstar = write_msr efer msr_lstar syscall_asm_entry in
    let star = write_msr lstar msr_star (bit_or (0x10 * 2 ^ 48) (0x08 * 2 ^ 32)) in
    write_msr star msr_fmask 0x700

-- The registers that `cpu_init` writes before it calls `syscall_init`.
unfoldable pub cpu_msrs : ℕ → Msrs → Msrs
cpu_msrs syscall_asm_entry m =
    let efer = write_msr m msr_efer (bit_or (m msr_efer) 1) in
    let star = write_msr efer msr_star (bit_or (0x18 * 2 ^ 48) (0x08 * 2 ^ 32)) in
    let lstar = write_msr star msr_lstar syscall_asm_entry in write_msr lstar msr_fmask (2 ^ 9)

unfoldable pub cpu_init : {S : Type 0} → ℕ → Msrs → Kernel S → Msrs × Kernel S
cpu_init syscall_asm_entry m s =
    (syscall_msrs syscall_asm_entry (cpu_msrs syscall_asm_entry m), syscall_init s)
