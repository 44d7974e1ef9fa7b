-- ===== src/Vm/DropFlags/Lifetimes/Refinement.antt =====
-- The drop flags of src/vm/vm.rs keep what a frame promises, however deep its calls go.
use skitter.Prelude.{
  ℕ, ◌+◌, ◌/◌, ◌≤◌, ◌≡◌, refl, Bool, false, Option, none, some, List, [], ◌>>=◌, length, arith,
}
use skitter.Vm.DropFlags.Locals.{alive, AreBytes}
use skitter.Vm.DropFlags.Lifetimes.{
  Act, on, call, Acts, nil, cons, indices, run_acts, run_act, run_frame,
}
use skitter.Vm.DropFlags.Lifetimes.Spec.{spec_acts, spec_act, spec_frame, AreScoped, IsScoped}
use skitter.Vm.DropFlags.Lifetimes.Agreement.{Holds, Agrees, from_Holds, bind-Agrees, each-Agrees}
use skitter.Vm.DropFlags.Lifetimes.Frames.{frame_lem, leaving, All-indices}

called :
    (base : ℕ) (flags : List ℕ) (f : ℕ → Bool) (o : Option (List ℕ))
    → Holds base flags flags f
    → Agrees base flags
        ((o >>= leaving flags) >>= λ r. some ([], r.1))
        (o >>= λ dropped. some ([], f))
unfolding Agrees
called base flags f none h = refl
called base flags f (some dropped) h = (flags, refl, h)

mutual
  unfolding run_acts run_act spec_acts spec_act AreScoped IsScoped Agrees

  acts-Agrees :
      (base count : ℕ) (acts : Acts) (flags : List ℕ) (f : ℕ → Bool)
      → AreBytes flags
      → ((i : ℕ) → alive base flags i ≡ f i)
      → base + (count + 7) / 8 ≤ length flags
      → AreScoped count acts
      → Agrees base flags (run_acts acts base flags) (spec_acts acts f)
  acts-Agrees base count nil flags f b h k s =
      (flags, refl, record { kept = refl; bytes = b; callers = refl; lives = h })
  acts-Agrees base count (cons act acts) flags f b h k (s, ss) =
      bind-Agrees base flags (run_act act base flags) (spec_act act f) _ _
        (act-Agrees base count act flags f b h k s)
        (λ dropped flags' g p. from_Holds base flags flags' g _ _ p (
          bind-Agrees base flags' (run_acts acts base flags') (spec_acts acts g) _ _
            (acts-Agrees base count acts flags' g p.bytes p.lives (omega (arith, p.kept)) ss)
            (λ later flags'' i q. (flags'', refl, q))))

  act-Agrees :
      (base count : ℕ) (act : Act) (flags : List ℕ) (f : ℕ → Bool)
      → AreBytes flags
      → ((i : ℕ) → alive base flags i ≡ f i)
      → base + (count + 7) / 8 ≤ length flags
      → IsScoped count act
      → Agrees base flags (run_act act base flags) (spec_act act f)
  act-Agrees base count (on op start end) flags f b h k s =
      each-Agrees base count op (indices op start end) flags f b h k
        (All-indices count op start end s)
  act-Agrees base count (call callee acts) flags f b h k s =
      let runs =
        frame_lem callee flags b (run_acts acts) (spec_acts acts)
          (λ base' new b' h' k'. acts-Agrees base' callee acts new (λ n. false) b' h' k' s) in
      rw runs (
        called base flags f (spec_frame (spec_acts acts) callee)
          (record { kept = refl; bytes = b; callers = refl; lives = h }))

-- The instructions of a frame on its drop flags, with any calls between them, do to a set of live
-- locals, empty at first, what they should: the frame panics exactly where the set says so, and
-- otherwise runs the glue of the locals that the set says, in that order, those of the set at the end
-- with them; and it leaves the flags of its callers as they were.
pub run_frame-spec_frame :
    (count : ℕ) (acts : Acts) (flags : List ℕ)
    → AreBytes flags
    → AreScoped count acts
    → run_frame count acts flags ≡ (spec_frame (spec_acts acts) count >>= leaving flags)
unfolding run_frame
run_frame-spec_frame count acts flags b s =
    frame_lem count flags b (run_acts acts) (spec_acts acts)
      (λ base new b' h k. acts-Agrees base count acts new (λ n. false) b' h k s)
