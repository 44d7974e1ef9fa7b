-- ===== src/Vm/DropFlags/Lifetimes/Spec.antt =====
-- What the drop flags of src/vm/vm.rs promise: a frame has a set of live locals, empty at first, and
-- nothing of it is left when the frame ends.
use skitter.Prelude.{
  ℕ, ◌<◌, Bool, true, false, Option, none, some, List, [], ◌∷◌, ◌++◌, ◌>>=◌, ◌==◌, if◌then◌else◌,
}
use skitter.Vm.DropFlags.Frame.{living}
use skitter.Vm.DropFlags.Lifetimes.{FlagOp, Act, on, call, Acts, nil, cons, indices}

-- On a local that is alive or not: whether its glue runs, and whether it is alive after. `none` is a
-- panic.
abbrev pub spec_one : FlagOp → Bool → Option (Bool × Bool)
spec_one FlagOp.init true = none
spec_one FlagOp.init false = some (false, true)
spec_one FlagOp.move true = some (false, false)
spec_one FlagOp.move false = none
spec_one FlagOp.drop live = some (live, false)
spec_one FlagOp.drop_init live = some (live, true)

abbrev pub put : (ℕ → Bool) → ℕ → Bool → ℕ → Bool
put f n v i = if i == n then v else f i

unfoldable pub spec_each : FlagOp → List ℕ → (ℕ → Bool) → Option (List ℕ × (ℕ → Bool))
spec_each op [] f = some ([], f)
spec_each op (n ∷ ns) f = spec_one op (f n) >>= λ (ran, v).
    spec_each op ns (put f n v) >>= λ (dropped, g). some (if ran then n ∷ dropped else dropped, g)

-- The locals that a frame drops, in order.
unfoldable pub spec_frame : ((ℕ → Bool) → Option (List ℕ × (ℕ → Bool))) → ℕ → Option (List ℕ)
spec_frame body count = body (λ n. false) >>= λ (dropped, f). some (dropped ++ living count f)

unfoldable mutual
  unfolding spec_each indices spec_frame

  pub spec_acts : Acts → (ℕ → Bool) → Option (List ℕ × (ℕ → Bool))
  spec_acts nil f = some ([], f)
  spec_acts (cons act acts) f = spec_act act f >>= λ (dropped, g).
      spec_acts acts g >>= λ (later, h). some (dropped ++ later, h)

  pub spec_act : Act → (ℕ → Bool) → Option (List ℕ × (ℕ → Bool))
  spec_act (on op start end) f = spec_each op (indices op start end) f
  spec_act (call count acts) f = spec_frame (spec_acts acts) count >>= λ dropped. some ([], f)

-- The instructions of a frame name locals of it, and so do those of the frames it calls.
unfoldable mutual
  pub AreScoped : ℕ → Acts → Type 0
  AreScoped count nil = Unit {0}
  AreScoped count (cons act acts) = IsScoped count act × AreScoped count acts

  pub IsScoped : ℕ → Act → Type 0
  IsScoped count (on op start end) = end < count
  IsScoped count (call callee acts) = AreScoped callee acts
