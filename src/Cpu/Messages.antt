-- ===== src/Cpu/Messages.antt =====
-- debug_print_iretq_frame of kernel/src/src/cpu.c and usermode_return_handler of
-- kernel/src/src/usermode_return.c. `buffer` is the array of `serial_print_hex` as the stack leaves it, `behind` the
-- byte that stands behind a literal.
use ppo_os.Common.{ℕ, ◌-◌, ◌^◌, List, [], ◌∷◌, ◌++◌, Option, none, some, option_case, codes}
use ppo_os.Common.Int.{ℤ, pos, negsuc}
use ppo_os.CString.{Memory}
use ppo_os.Serial.{Serial, serial_write, serial_print_hex}

-- A label of 10 bytes, a number and a line feed.
unfoldable pub print_field : Memory → List ℕ → ℕ → Serial → Option Serial
print_field buffer label value s =
    option_case (serial_write label s) none
      λ s1. option_case (serial_print_hex buffer value s1) none (serial_write (10 ∷ []))

-- 29 bytes are sent of a text of 27 bytes and its NUL.
unfoldable pub debug_print_iretq_frame : Memory → ℕ → ℕ → ℕ → ℕ → ℕ → ℕ → Serial → Option Serial
debug_print_iretq_frame buffer behind rip cs rflags rsp ss s =
    let head = codes "iretq frame (before jump):" ++ (10 ∷ (0 ∷ (behind ∷ []))) in
    option_case (serial_write head s) none λ s1.
      option_case (print_field buffer (codes "  RIP:    ") rip s1) none λ s2.
        option_case (print_field buffer (codes "  CS:     ") cs s2) none λ s3.
          option_case (print_field buffer (codes "  RFLAGS: ") rflags s3) none λ s4.
            option_case (print_field buffer (codes "  RSP:    ") rsp s4) none
              (print_field buffer (codes "  SS:     ") ss)

-- The conversion of an `int` to `uint64_t`.
abbrev pub to_uint64 : ℤ → ℕ
to_uint64 (pos n) = n
to_uint64 (negsuc k) = 2 ^ 64 - 1 - k

-- "\n[Process returned to kernel]\n", of which the last byte is cut.
abbrev pub returned : List ℕ
returned = 10 ∷ codes "[Process returned to kernel]"

-- The serial port and the terminal up to the call of `shell_run`; the function does not return.
unfoldable pub usermode_return_handler : Memory → ℤ → Serial × List ℕ → Option (Serial × List ℕ)
usermode_return_handler buffer exit_code (s, terminal) =
    option_case (serial_write (codes "[USERMODE_RETURN] Handler called with code ") s) none λ s1.
      option_case (serial_print_hex buffer (to_uint64 exit_code) s1) none λ s2.
        option_case (serial_write (10 ∷ []) s2) none λ s3.
          option_case (serial_write returned s3) none λ s4.
            option_case
              (serial_write (codes "[USERMODE_RETURN] Returning to shell" ++ (10 ∷ [])) s4) none
              (λ s5. some (s5, terminal ++ returned))
