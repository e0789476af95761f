-- ===== src/Tests/Loader.antt =====
-- A table of two functions, and the names "a" and "bc".
use evalyn_os.Base.{ℕ, ◌/◌, ◌≡◌, refl, ◌==◌, if◌then◌else◌, none, some, arith}
use evalyn_os.Libc.Memory.{Memory}
use evalyn_os.Libc.Strings.{strnlen}
use evalyn_os.Loader.Symbols.{Symbol, symbol_for_pc, best_loop, check_best}
use evalyn_os.Loader.Symbols.Found.{IsResult, symbol_for_pc-IsResult}

abbrev names : Memory
names a = if a == 1000 then 97 else if a == 1002 then 98 else if a == 1003 then 99 else 0

abbrev functions : ℕ → Symbol
functions i =
    if i == 0
    then record { name = 0; info = 18; shndx = 1; value = 4096; size = 64 }
    else record { name = 2; info = 2; shndx = 1; value = 4160; size = 32 }

second_found :
    symbol_for_pc names (some functions) 48 1000 5 4170 ≡ some (record { name = 1002; offset = 10 })
unfolding symbol_for_pc best_loop check_best strnlen
second_found = refl

past_both : symbol_for_pc names (some functions) 48 1000 5 4192 ≡ none
unfolding symbol_for_pc best_loop check_best strnlen
past_both = refl

symbol_for_pc-IsResult_example :
    IsResult names functions
      (48 / 24)
      1000
      5
      4170
      (symbol_for_pc names (some functions) 48 1000 5 4170)
symbol_for_pc-IsResult_example =
    symbol_for_pc-IsResult names functions 48 1000 5 4170 (λ e. ground (arith, e))
