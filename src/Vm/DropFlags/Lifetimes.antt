-- ===== src/Vm/DropFlags/Lifetimes.antt =====
-- The instructions on drop flags of build.rs, and the life of a frame in `run_bytecode` of
-- src/vm/vm.rs with the frames it calls: they all share one list of flags. The glue of a dropped local
-- runs on a thread with flags of its own, and is a number in a list.
pub mod Spec
pub mod Ops
pub mod Agreement
pub mod Frames
pub mod Refinement
pub mod Counts
pub mod Accounts
use skitter.Prelude.{
  ℕ, zero, suc, ◌+◌, ◌-◌, Bool, false, Option, some, List, [], ◌∷◌, ◌++◌, ◌>>=◌, length, take,
  if◌then◌else◌,
}
use skitter.Vm.DropFlags.{local_init, local_move, local_drop, local_drop_init, enter, drop_all}

pub data FlagOp : Type 0 where
  init move drop drop_init : FlagOp

mutual
  -- What a frame does, in order: an instruction on the locals from one to another, or the call of a
  -- function, with the number of its locals and what it does.
  pub data Act : Type 0 where
    on : FlagOp → ℕ → ℕ → Act
    call : ℕ → Acts → Act

  pub data Acts : Type 0 where
    nil : Acts
    cons : Act → Acts → Acts

-- `start..=end`, and the same the other way round, with the number of its elements.
unfoldable pub range : ℕ → ℕ → List ℕ
range start zero = []
range start (suc k) = start ∷ range (suc start) k

unfoldable pub range_rev : ℕ → ℕ → List ℕ
range_rev start zero = []
range_rev start (suc k) = (start + k) ∷ range_rev start k

unfoldable pub indices : FlagOp → ℕ → ℕ → List ℕ
unfolding range range_rev
indices FlagOp.init start end = range start (suc end - start)
indices FlagOp.move start end = range start (suc end - start)
indices FlagOp.drop start end = range_rev start (suc end - start)
indices FlagOp.drop_init start end = range_rev start (suc end - start)

-- One local: whether its glue runs, and the flags after.
unfoldable pub one : ℕ → FlagOp → ℕ → List ℕ → Option (Bool × List ℕ)
unfolding local_init local_move local_drop local_drop_init
one base FlagOp.init n flags = local_init base n flags >>= λ flags'. some (false, flags')
one base FlagOp.move n flags = local_move base n flags >>= λ flags'. some (false, flags')
one base FlagOp.drop n flags = local_drop base n flags
one base FlagOp.drop_init n flags = local_drop_init base n flags

-- The locals whose glue runs, in order, and the flags after.
unfoldable pub each : ℕ → FlagOp → List ℕ → List ℕ → Option (List ℕ × List ℕ)
unfolding one
each base op [] flags = some ([], flags)
each base op (n ∷ ns) flags = one base op n flags >>= λ (ran, flags').
    each base op ns flags' >>= λ (dropped, flags'').
    some (if ran then n ∷ dropped else dropped, flags'')

-- A frame around a body, which takes the place of the flags and the flags.
unfoldable pub frame :
    (ℕ → List ℕ → Option (List ℕ × List ℕ)) → ℕ → List ℕ → Option (List ℕ × List ℕ)
unfolding enter drop_all
frame body count flags =
    let drops_base = length flags in
    body drops_base (enter count flags) >>= λ (dropped, flags').
    drop_all drops_base count flags' >>= λ (rest, flags'').
    some (dropped ++ rest, take drops_base flags'')

unfoldable mutual
  unfolding each indices frame

  pub run_acts : Acts → ℕ → List ℕ → Option (List ℕ × List ℕ)
  run_acts nil base flags = some ([], flags)
  run_acts (cons act acts) base flags = run_act act base flags >>= λ (dropped, flags').
      run_acts acts base flags' >>= λ (later, flags''). some (dropped ++ later, flags'')

  -- What a called frame drops is its own.
  pub run_act : Act → ℕ → List ℕ → Option (List ℕ × List ℕ)
  run_act (on op start end) base flags = each base op (indices op start end) flags
  run_act (call count acts) base flags =
      frame (run_acts acts) count flags >>= λ (dropped, flags'). some ([], flags')

-- `run_bytecode`
unfoldable pub run_frame : ℕ → Acts → List ℕ → Option (List ℕ × List ℕ)
unfolding run_acts frame
run_frame count acts flags = frame (run_acts acts) count flags
