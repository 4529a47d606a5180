-- ===== src/OffsetString/Tests.antt =====
-- Strings at concrete inputs: one with an outer buffer, a small one and an empty one.
use procshared_mem.Base.{
  ℕ, zero, suc, ◌*◌, ◌≡◌, refl, sym, subst, true, false, ◌&&◌, ◌||◌, none, some, ◌==◌,
  if◌then◌else◌, arith,
}
use mathlib.Core.Option.{some-injective}
use procshared_mem.Base.Tally.{tally}
use procshared_mem.OffsetString.{
  Str, State, done, throws, construct, copy_assign, empty, clear, deallocate_outer_buffer,
  propagate_alloc, copy_buffers, allocate_outer_buffer, set_outer_buffer, copy_outer, show_outer,
}
use procshared_mem.OffsetString.Counting.{
  construct_text, copy_text, exchange_texts, size, swap_copying,
}
use procshared_mem.OffsetString.Buffers.{Owned}
use procshared_mem.OffsetString.Endless.{size-empty}
use procshared_mem.OffsetString.Copies.{copy_assign-SameText}
use procshared_mem.OffsetString.Dangling.{Dangling, copy_assign-Dangling}
use procshared_mem.OffsetString.Texts.{Apart, SameText}
use procshared_mem.OffsetString.Runs.{
  Run, Leaves, stay, then_step, copy_assigns, returned, clears, Owned-Run,
}

abbrev strs : ℕ → Str
strs zero = record { alloc = 1; outer_buffer = 100; outer_size = 5; op_string = 100 }
strs i = record { alloc = 1; outer_buffer = 0; outer_size = 0; op_string = 10 * i }

abbrev memory : State
memory = record {
  strs = strs;
  chars = λ a. if a == 100 then 97 else if a == 10 then 98 else 0;
  taken = λ p. p == 100;
  soo_size = 4;
  soo_buff = λ i. 10 * i;
}

memory-Owned : Owned 3 memory
unfolding tally
memory-Owned p h = ground arith

size-empty_example :
    let st0 = construct memory 2 1 in
    (size 9 memory 2 ≡ (if empty memory 2 then some 0 else none))
    × (construct_text 9 memory 2 100 1 none
        ≡ (if st0.chars 100 == 0 then some (copy_text st0 2 100 1 none) else none))
    × (swap_copying 9 memory 2 1 none none ≡ (
        if suc (suc zero) == 1
        then some (done memory)
        else if empty memory 2 && empty memory 1
        then some (exchange_texts memory 2 1 1 1 none none)
        else none))
size-empty_example = size-empty 8 memory 2 1 100 1 none none

abbrev copied : State
unfolding copy_assign propagate_alloc copy_buffers allocate_outer_buffer deallocate_outer_buffer
    set_outer_buffer copy_outer show_outer
copied = elim (copy_assign false memory 1 0 (some 200)) [ done st ↦ st | r ↦ memory ]

assign-copied : copy_assign false memory 1 0 (some 200) ≡ done copied
unfolding copied copy_assign propagate_alloc copy_buffers allocate_outer_buffer
    deallocate_outer_buffer set_outer_buffer copy_outer show_outer
assign-copied = refl

copied_and_cleared : Run 3 memory (clear copied 0)
unfolding propagate_alloc deallocate_outer_buffer
copied_and_cleared =
    then_step memory copied (clear copied 0)
      (then_step memory memory copied (stay memory) (
        copy_assigns false memory copied 1 0 (some 200) (omega arith)
          (λ p e. rw (sym (some-injective _ _ e)) refl)
          (subst (λ r. Leaves r copied) (sym assign-copied) (returned copied))))
      (clears copied 0 (omega arith))

Owned-Run_example : Owned 3 (clear copied 0)
Owned-Run_example = Owned-Run 3 copied_and_cleared memory-Owned

source-Apart : Apart memory 1 0 200
source-Apart j k hj hk = (λ e. omega arith, λ e. omega arith, λ z. absurd (z refl))

copy_assign-SameText_example :
    (st' : State) × (copy_assign false memory 1 0 (some 200) ≡ done st') × SameText memory st' 1 0
copy_assign-SameText_example =
    copy_assign-SameText false memory 1 0 200 (omega arith) refl (omega arith) source-Apart

abbrev outer_strs : ℕ → Str
outer_strs zero = record { alloc = 1; outer_buffer = 100; outer_size = 5; op_string = 100 }
outer_strs i = record { alloc = 1; outer_buffer = 300; outer_size = 2; op_string = 300 }

abbrev outer_memory : State
outer_memory = record memory { strs = outer_strs; taken = λ p. p == 100 || p == 300 }

copy_assign-Dangling_example :
    (st' : State) × (copy_assign true outer_memory 1 0 none ≡ throws st') × Dangling st' 1 300
copy_assign-Dangling_example =
    copy_assign-Dangling true outer_memory 1 0 (omega arith) refl (omega arith) (omega arith)
      (omega arith)
