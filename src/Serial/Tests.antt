-- ===== src/Serial/Tests.antt =====
-- A device that is ready at every other read of its status.
use ppo_os.Common.{ℕ, zero, suc, ◌≡◌, refl, List, [], ◌∷◌, some, arith, length, codes}
use ppo_os.Serial.{Serial, serial_write, serial_print_hex}
use ppo_os.Serial.Numeral.{ready, IsSent, serial_write-IsSent, serial_print_hex-numeral}
use ppo_os.CString.Print.Reverse.{Each}
use ppo_os.CString.Print.Spells.{IsHexDigit, numeral}

abbrev answers : ℕ → List ℕ
answers zero = []
answers (suc k) = 0 ∷ (0x60 ∷ answers k)

abbrev device : Serial
device = record { statuses = answers 20; written = [] }

device_ready : ready device.statuses ≡ 20
unfolding ready
device_ready = refl

serial_write-IsSent_example :
    (s' : Serial) × (serial_write (codes "ok") device ≡ some s') × IsSent (codes "ok") device s'
serial_write-IsSent_example = serial_write-IsSent (codes "ok") device (omega (arith, device_ready))

serial_print_hex-numeral_example :
    (s' : Serial) × (cs : List ℕ) × (serial_print_hex (λ a. 0) 0x401000 device ≡ some s')
    × IsSent (48 ∷ (120 ∷ cs)) device s'
    × (length cs ≡ 16)
    × Each IsHexDigit cs
    × (numeral 16 0 cs ≡ 0x401000)
serial_print_hex-numeral_example =
    serial_print_hex-numeral (λ a. 0) 0x401000 device (omega arith) (omega arith)
      (omega (arith, device_ready))
