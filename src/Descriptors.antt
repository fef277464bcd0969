-- ===== src/Descriptors.antt =====
-- kernel/src/src/gdt.c and kernel/src/src/idt.c: the tables that the processor reads, and what the kernel does on a
-- fault. The instructions that load the tables and the messages are left out.
pub mod Decode
mod Tests
use ppo_os.Common.{
  ℕ, zero, suc, ◌+◌, ◌-◌, ◌*◌, ◌/◌, ◌%◌, ◌^◌, bit_and, bit_or, Bool, true, false, not, ◌&&◌, List,
  [], ◌∷◌, ◌++◌, ◌==◌, set, if◌then◌else◌,
}
use ppo_os.Vmm.{Vmm, vmm_switch_address_space}

-- `struct gdt_entry`
pub record GdtEntry : Type 0 where
  pub limit_low : ℕ
  pub base_low : ℕ
  pub base_middle : ℕ
  pub access : ℕ
  pub granularity : ℕ
  pub base_high : ℕ

-- What `set_gdt_entry` writes.
unfoldable pub gdt_entry : ℕ → ℕ → ℕ → ℕ → GdtEntry
gdt_entry base limit access gran = record {
  limit_low = bit_and limit 0xFFFF;
  base_low = bit_and base 0xFFFF;
  base_middle = bit_and (base / 2 ^ 16) 0xFF;
  access = access;
  granularity = bit_or (bit_and (limit / 2 ^ 16) 0x0F) (bit_and gran 0xF0);
  base_high = bit_and (base / 2 ^ 24) 0xFF;
}

-- The entries 0 to 4 of `gdt_init`: null, the kernel's code and data, the user's code and data.
abbrev pub segments : List GdtEntry
segments =
    gdt_entry 0 0 0 0
    ∷ gdt_entry 0 0xFFFFF 0x9A 0xA0
    ∷ gdt_entry 0 0xFFFFF 0x92 0xC0
    ∷ gdt_entry 0 0xFFFFF 0xFA 0xA0
    ∷ gdt_entry 0 0xFFFFF 0xF2 0xC0
    ∷ []

-- `sizeof(struct tss_entry) - 1`
abbrev pub tss_limit : ℕ
tss_limit = 104 - 1

-- The 16 bytes of the descriptor of the TSS at `tss_base`, over the entries 5 and 6.
unfoldable pub tss_descriptor : ℕ → List ℕ
tss_descriptor tss_base =
    bit_and tss_limit 0xFF
    ∷ bit_and (tss_limit / 2 ^ 8) 0xFF
    ∷ bit_and tss_base 0xFF
    ∷ bit_and (tss_base / 2 ^ 8) 0xFF
    ∷ bit_and (tss_base / 2 ^ 16) 0xFF
    ∷ 0x89
    ∷ 0
    ∷ bit_or (bit_and (tss_limit / 2 ^ 16) 0x0F) (bit_and (tss_base / 2 ^ 24) 0xF0)
    ∷ bit_and (tss_base / 2 ^ 32) 0xFF
    ∷ bit_and (tss_base / 2 ^ 40) 0xFF
    ∷ bit_and (tss_base / 2 ^ 48) 0xFF
    ∷ bit_and (tss_base / 2 ^ 56) 0xFF
    ∷ 0
    ∷ 0
    ∷ 0
    ∷ 0
    ∷ []

-- `struct idt_entry`
pub record IdtEntry : Type 0 where
  pub offset_low : ℕ
  pub selector : ℕ
  pub ist : ℕ
  pub type_attr : ℕ
  pub offset_mid : ℕ
  pub offset_high : ℕ
  pub reserved : ℕ

-- What `idt_set_gate` writes.
unfoldable pub gate : ℕ → ℕ → ℕ → IdtEntry
gate base sel flags = record {
  offset_low = bit_and base 0xFFFF;
  selector = sel;
  ist = 0;
  type_attr = flags;
  offset_mid = bit_and (base / 2 ^ 16) 0xFFFF;
  offset_high = bit_and (base / 2 ^ 32) 0xFFFFFFFF;
  reserved = 0;
}

unfoldable pub idt_set_gate : List IdtEntry → ℕ → ℕ → ℕ → ℕ → List IdtEntry
idt_set_gate entries num base sel flags = set entries num (gate base sel flags)

abbrev pub zero_entries : ℕ → List IdtEntry
zero_entries zero = []
zero_entries (suc n) =
    record {
      offset_low = 0;
      selector = 0;
      ist = 0;
      type_attr = 0;
      offset_mid = 0;
      offset_high = 0;
      reserved = 0;
    }
    ∷ zero_entries n

-- The table that `idt_init` loads, where the stubs have these addresses.
unfoldable pub idt_init : ℕ → ℕ → List IdtEntry
idt_init isr13 isr14 =
    idt_set_gate (idt_set_gate (zero_entries 256) 13 isr13 0x08 0x8E) 14 isr14 0x08 0x8E

-- How `isr_handler` goes on: it runs the shell and then halts, or it halts at once.
pub data Recovery : Type 0 where
  runs_shell halts : Recovery

unfoldable pub is_user_fault : ℕ → ℕ → ℕ → Bool
is_user_fault int_no err_code cs =
    if int_no == 14 then not (bit_and err_code 4 == 0) else cs == 0x1b

unfoldable pub isr_handler : Vmm → ℕ → ℕ → ℕ → Vmm × Recovery
isr_handler s int_no err_code cs =
    if not (is_user_fault int_no err_code cs)
    then (s, halts)
    else if s.g_kernel_pml4 == 0
    then (s, halts)
    else (vmm_switch_address_space s s.g_kernel_pml4, runs_shell)
