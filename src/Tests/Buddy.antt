-- ===== src/Tests/Buddy.antt =====
-- The allocator of pages on sixteen frames.
use evalyn_os.Base.{ℕ, ◌<◌, ◌≡◌, refl, false, List, [], ◌∷◌, arith}
use evalyn_os.Mem.Words.{align_up, log2ull, high_bit}
use evalyn_os.Mem.Buddy.{
  Buddy, Outcome, returned, panicked, out_of_fuel, invalid, put_block, add_block, trailing_zeros,
  fitting_order, add_loop, add_range, find_order, split_loop, allocate, merge_loop, release,
}
use evalyn_os.Mem.Buddy.Invariant.{none_out, Inv, IsFreePage}
use evalyn_os.Mem.Buddy.Moves.{put_block-Inv}
use evalyn_os.Mem.Buddy.Alloc.{AllSmaller, IsAllocation, allocate-IsAllocation}
use evalyn_os.Mem.Buddy.Free.{IsReleased, release-IsReleased, allocate-release}
use evalyn_os.Mem.Buddy.Range.{IsAdded, add_range-IsAdded, first_frame, end_frame}

abbrev pub no_memory : Buddy
no_memory = record {
  pages = λ _. record { kind = invalid; max_order = 0; cur_order = 0 };
  orders = λ _. [];
}

pub no_memory-Inv : Inv none_out no_memory
no_memory-Inv = record {
  listed = λ k x. refl;
  distinct = λ k. tt;
  aligned = λ x h. absurd (ground (arith, h));
  apart = λ x y h h' lt. absurd (ground (arith, h));
  bounded = λ x h. absurd (ground (arith, h));
  max_bounded = λ x. omega arith;
}

pub nothing_free : (a : ℕ) → ¬ IsFreePage none_out no_memory a
nothing_free a (x, h, _, _) = ground (arith, h)

-- One block, of the frames 8 to 15
abbrev one_block : Buddy
one_block = put_block no_memory 8 3 3

one_block-Inv : Inv none_out one_block
one_block-Inv =
    put_block-Inv none_out no_memory 8 3 3 no_memory-Inv (λ x h. absurd (ground (arith, h))) refl
      (omega arith) (omega arith) refl

abbrev lists_of : Outcome (Buddy × ℕ) → List (List ℕ)
lists_of (returned (b, p)) = b.orders 0 ∷ b.orders 1 ∷ b.orders 2 ∷ b.orders 3 ∷ (p ∷ []) ∷ []
lists_of panicked = []
lists_of out_of_fuel = []

abbrev lists_after : Outcome Buddy → List (List ℕ)
lists_after (returned b) = b.orders 0 ∷ b.orders 1 ∷ b.orders 2 ∷ b.orders 3 ∷ []
lists_after panicked = []
lists_after out_of_fuel = []

split_run :
    lists_of (allocate one_block 1 false) ≡ ([] ∷ (10 ∷ []) ∷ (12 ∷ []) ∷ [] ∷ (8 ∷ []) ∷ [])
unfolding allocate find_order split_loop put_block
split_run = refl

range_run :
    lists_after (add_range 4096 no_memory 4097 57343)
    ≡ ((14 ∷ []) ∷ (12 ∷ 2 ∷ []) ∷ (8 ∷ 4 ∷ []) ∷ [] ∷ [])
unfolding add_range add_loop fitting_order trailing_zeros log2ull high_bit align_up add_block
    put_block
range_run = refl

merge_run :
    lists_after (release (record one_block { orders = λ _. [] }) 3 0)
    ≡ ((3 ∷ []) ∷ [] ∷ [] ∷ [] ∷ [])
unfolding release merge_loop put_block
merge_run = refl

allocate-IsAllocation_example : IsAllocation one_block 1 false (allocate one_block 1 false)
allocate-IsAllocation_example = allocate-IsAllocation one_block 1 false one_block-Inv (omega arith)

release-IsReleased_example :
    (b' : Buddy) × (release no_memory 4 2 ≡ returned b') × IsReleased no_memory 4 2 b'
release-IsReleased_example =
    release-IsReleased no_memory 4 2 no_memory-Inv refl (omega arith) (λ a w. nothing_free a)

one_block_enough : ¬ AllSmaller one_block 1
unfolding put_block
one_block_enough h = omega (arith, h 8 refl)

allocate-release_example :
    (b' : Buddy) × (p : ℕ) × (b'' : Buddy) × (allocate one_block 1 false ≡ returned (b', p))
    × (release b' p 1 ≡ returned b'')
    × Inv none_out b''
    × ((a : ℕ)
        → (IsFreePage none_out one_block a → IsFreePage none_out b'' a)
          × (IsFreePage none_out b'' a → IsFreePage none_out one_block a))
allocate-release_example =
    allocate-release one_block 1 false one_block-Inv (omega arith) one_block_enough

frames_positive : 0 < first_frame 4096 4097
unfolding align_up
frames_positive = omega arith

add_range-IsAdded_example :
    (b' : Buddy) × (add_range 4096 no_memory 4097 57343 ≡ returned b')
    × IsAdded no_memory (first_frame 4096 4097) (end_frame 4096 4097 57343) b'
add_range-IsAdded_example =
    add_range-IsAdded 4096 no_memory 4097 57343 no_memory-Inv frames_positive
      (λ a w. nothing_free a)
