-- ===== src/Shell/Tests.antt =====
-- Variables and lines.
use ppo_os.Common.{codes, ℕ, ◌≡◌, ◌⊎◌, refl, true, false, some, none, List, [], ◌∷◌, arith}
use ppo_os.Shell.{parse_octal, octal_from, parse_redirection}
use ppo_os.Shell.Env.{EnvVar, get_env_var, set_env_var, unset_env_var}
use ppo_os.Shell.Update.{all_used, SetOutcome, set_env_var-SetOutcome, get-unset_env_var}
use ppo_os.Shell.Line.{parse_line, read_line}
use ppo_os.Fs.{Driver, initramfs, no_file}
use ppo_os.Shell.Run.{Shell, run_line}
use ppo_os.Shell.Export.{run_line-export}
use ppo_os.Shell.Words.{line_of, parse_line-line_of}

abbrev free : EnvVar
free = record { name = []; value = [] }

-- USER=u, and a free entry.
abbrev two_entries : List EnvVar
two_entries = record { name = 85 ∷ 83 ∷ 69 ∷ 82 ∷ []; value = 117 ∷ [] } ∷ free ∷ []

abbrev path : List ℕ
path = 80 ∷ 65 ∷ 84 ∷ 72 ∷ []

set_env_var-SetOutcome_example :
    SetOutcome path
      (47 ∷ [])
      refl
      (omega arith)
      two_entries
      (set_env_var two_entries path (47 ∷ []))
set_env_var-SetOutcome_example =
    set_env_var-SetOutcome path (47 ∷ []) refl (omega arith) two_entries

unset_path : get_env_var (unset_env_var two_entries path) path ≡ none
unset_path = get-unset_env_var two_entries path path

-- "a b" and "c", in quotes.
parse_line-line_of_example :
    parse_line two_entries (line_of (97 ∷ 32 ∷ 98 ∷ []) ((99 ∷ []) ∷ []))
    ≡ some ((97 ∷ 32 ∷ 98 ∷ []) ∷ (99 ∷ []) ∷ [])
parse_line-line_of_example =
    parse_line-line_of two_entries (97 ∷ 32 ∷ 98 ∷ []) ((99 ∷ []) ∷ [])
      (record {
        plain = omega arith;
        filled = omega arith;
        short = omega arith;
        unmarked = omega arith;
      })
      (
        record {
          plain = omega arith;
          filled = omega arith;
          short = omega arith;
          unmarked = omega arith;
        },
        _,
      )
      (omega arith)

-- "ab", a backspace, "c" and the line feed.
read_line_run : read_line (97 ∷ 0 ∷ 98 ∷ 8 ∷ 99 ∷ 10 ∷ []) [] ≡ some (97 ∷ 99 ∷ [])
unfolding read_line
read_line_run = refl

parse_octal_run : parse_octal (55 ∷ 53 ∷ 53 ∷ []) ≡ 493
unfolding parse_octal octal_from
parse_octal_run = refl

-- "ls > f"
parse_redirection_run :
    parse_redirection ((108 ∷ 115 ∷ []) ∷ (62 ∷ []) ∷ (102 ∷ []) ∷ [])
    ≡ some (record { args = (108 ∷ 115 ∷ []) ∷ []; outfile = 102 ∷ []; append_mode = false })
unfolding parse_redirection
parse_redirection_run = refl

abbrev no_ext2 : Driver ℕ
no_ext2 = record {
  ext2_detect = λ m p n. false;
  ext2_init = λ d m p n. (d, false);
  ext2_open = λ d m name. none;
  ext2_read = λ d m f offset len. [];
  ext2_list = λ d m p. [];
  ext2_change_dir = λ d m p. (d, false);
}

abbrev started : Shell ℕ
started = record {
  env_vars = two_entries;
  current_user = codes "user";
  shell_exit_requested = false;
  fs = record {
    files = [];
    dirs = [];
    current_dir = 47 ∷ [];
    active_fs = initramfs;
    mem = λ a. 0;
    mem_used = 0;
    ext2_file = no_file;
    driver_state = 0;
  };
  vmm = record {
    pmm = record { bitmap = λ j. 255; last_alloc_index = 0; highest_address = 0 };
    mem = λ a. 0;
    g_kernel_pml4 = 4096;
    cr3 = 4096;
  };
}

run_line-export_example :
    (s' : Shell ℕ) × (run_line no_ext2 0
        (λ m entry rsp. m)
        started
        (line_of (codes "export") (path ∷ (47 ∷ []) ∷ []))
      ≡ some s')
    × ((get_env_var s'.env_vars path ≡ some (47 ∷ []))
        ⊎ ((all_used two_entries ≡ true) × (s'.env_vars ≡ two_entries)))
run_line-export_example =
    run_line-export no_ext2 0 (λ m entry rsp. m) started path (47 ∷ [])
      (record {
        plain = omega arith;
        filled = omega arith;
        short = omega arith;
        unmarked = omega arith;
      })
      (record {
        plain = omega arith;
        filled = omega arith;
        short = omega arith;
        unmarked = omega arith;
      })
      (omega arith) (λ e. cc) (λ e. cc)
