-- ===== src/Vm/DropFlags/Runs.antt =====
-- The drop flags of src/vm/vm.rs on a frame of ten locals, and the theorems at concrete inputs.
use skitter.Prelude.{
  ℕ, ◌+◌, ◌>>=◌, ◌≡◌, refl, true, false, none, some, List, [], ◌∷◌, if◌then◌else◌, arith,
}
use skitter.Vm.DropFlags.{local_init, local_move, local_drop, local_drop_init, enter, drop_all}
use skitter.Vm.DropFlags.Locals.{alive, Matches, Ran, flags-keep_set}
use skitter.Vm.DropFlags.Lifetimes.{FlagOp, Acts, on, call, nil, cons, run_frame}
use skitter.Vm.DropFlags.Lifetimes.Spec.{spec_acts, spec_frame, AreScoped, IsScoped}
use skitter.Vm.DropFlags.Lifetimes.Refinement.{run_frame-spec_frame}
use skitter.Vm.DropFlags.Lifetimes.Frames.{leaving}
use skitter.Vm.DropFlags.Lifetimes.Counts.{begins, moves, acts_with, times}
use skitter.Vm.DropFlags.Lifetimes.Accounts.{run_frame-balance}

-- The byte of a caller, and a frame in which the locals 1 and 9 are alive.
abbrev flags : List ℕ
flags = 255 ∷ 2 ∷ 2 ∷ []

entered : enter 10 (255 ∷ []) ≡ 255 ∷ 0 ∷ 0 ∷ []
unfolding enter
entered = refl

dropped : drop_all 1 10 flags ≡ some (9 ∷ 1 ∷ [], 255 ∷ 0 ∷ 0 ∷ [])
unfolding drop_all
dropped = refl

twice : local_init 1 9 flags ≡ none
unfolding local_init
twice = refl

flags-keep_set_example :
    Matches 1 9 flags (local_init 1 9 flags) (if alive 1 flags 9 then none else some true)
    × Matches 1 9 flags (local_move 1 9 flags) (if alive 1 flags 9 then some false else none)
    × Ran 1 9 flags (local_drop 1 9 flags) (alive 1 flags 9) false
    × Ran 1 9 flags (local_drop_init 1 9 flags) (alive 1 flags 9) true
flags-keep_set_example =
    flags-keep_set 1 9 flags (omega arith, (omega arith, (omega arith, tt))) (omega arith)

-- A frame of ten locals that fills the first two, calls a function with locals of its own, moves out
-- of the first, and fills the second once more.
abbrev lifetime : Acts
lifetime = cons (on FlagOp.init 0 1) (
    cons (call 3 (cons (on FlagOp.init 0 2) (cons (on FlagOp.drop 0 1) nil)))
      (cons (on FlagOp.move 0 0) (cons (on FlagOp.drop_init 1 1) nil)))

lived : run_frame 10 lifetime (255 ∷ []) ≡ some (1 ∷ 1 ∷ [], 255 ∷ [])
unfolding run_frame
lived = refl

twice_filled : run_frame 10 (cons (on FlagOp.init 0 1) (cons (on FlagOp.init 1 1) nil)) [] ≡ none
unfolding run_frame
twice_filled = refl

lifetime-AreScoped : AreScoped 10 lifetime
unfolding AreScoped IsScoped
lifetime-AreScoped = omega arith

run_frame-spec_frame_example :
    run_frame 10 lifetime (255 ∷ []) ≡ (spec_frame (spec_acts lifetime) 10 >>= leaving (255 ∷ []))
run_frame-spec_frame_example =
    run_frame-spec_frame 10 lifetime (255 ∷ []) (omega arith, tt) lifetime-AreScoped

run_frame-balance_example :
    (acts_with begins 1 lifetime ≡ acts_with moves 1 lifetime + times 1 (1 ∷ 1 ∷ []))
    × (◌≡◌ {A = List ℕ} (255 ∷ []) (255 ∷ []))
run_frame-balance_example =
    run_frame-balance 10 lifetime (255 ∷ []) (1 ∷ 1 ∷ []) (255 ∷ []) 1 (omega arith, tt)
      lifetime-AreScoped lived (omega arith)
