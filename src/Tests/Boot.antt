-- ===== src/Tests/Boot.antt =====
-- The allocator of the boot on a map of three entries.
use evalyn_os.Base.{ℕ, ◌≡◌, inl, refl, true, false, List, [], ◌∷◌, arith}
use evalyn_os.Mem.Words.{align_up}
use evalyn_os.Mem.Buddy.{Buddy, Outcome, returned, panicked, out_of_fuel}
use evalyn_os.Mem.Boot.{Entry, Boot, alloc_from, balloc_alloc_page, buddy_init}
use evalyn_os.Mem.Boot.Map.{IsMap}
use evalyn_os.Mem.Boot.Step.{GivesNext}
use evalyn_os.Mem.Boot.Pages.{balloc_alloc_page-GivesNext}
use evalyn_os.Mem.Boot.Init.{IsFilled, buddy_init-IsFilled}
use evalyn_os.Tests.Buddy.{no_memory, no_memory-Inv, nothing_free}

abbrev memory_map : List Entry
memory_map =
    record { usable = true; base = 4096; length = 647168 }
    ∷ record { usable = false; base = 651264; length = 397312 }
    ∷ record { usable = true; base = 1048576; length = 32768 }
    ∷ []

abbrev at_first : Boot
at_first = record { rest = memory_map; offset = 0; last = 0 }

memory_map-IsMap : IsMap 4096 0 memory_map
memory_map-IsMap = (
  λ _. record { base_whole = refl; length_whole = refl; above = omega arith; fits = omega arith },
  (
    λ u. absurd (ground (arith, u)),
    (
      λ _. record {
        base_whole = refl;
        length_whole = refl;
        above = omega arith;
        fits = omega arith;
      },
      tt,
    ),
  ),
)

abbrev page_of : Outcome (Boot × ℕ) → ℕ
page_of (returned (s, p)) = p
page_of panicked = 0
page_of out_of_fuel = 0

first_page_run : page_of (balloc_alloc_page 4096 at_first) ≡ 1048576
unfolding balloc_alloc_page alloc_from align_up
first_page_run = refl

balloc_alloc_page-GivesNext_example : GivesNext 4096 0 memory_map (balloc_alloc_page 4096 at_first)
balloc_alloc_page-GivesNext_example =
    balloc_alloc_page-GivesNext 4096 refl (omega arith) refl at_first
      (inl (refl, refl, memory_map-IsMap))

buddy_init-IsFilled_example :
    (b' : Buddy) × (buddy_init 4096 1052672 memory_map no_memory ≡ returned b')
    × IsFilled 4096 1052672 memory_map no_memory b'
buddy_init-IsFilled_example =
    buddy_init-IsFilled 4096 1052672 refl (omega arith) refl (omega arith) 0 memory_map no_memory
      memory_map-IsMap no_memory-Inv (λ a w. nothing_free a)
