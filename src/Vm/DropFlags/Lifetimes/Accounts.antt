-- ===== src/Vm/DropFlags/Lifetimes/Accounts.antt =====
-- What is begun in a frame ends once: each time that src/vm/vm.rs marks a local alive is matched by a
-- move out of it or by a run of its glue.
use skitter.Prelude.{
  ℕ, zero, suc, ◌+◌, ◌<◌, ◌≡◌, refl, sym, ap, ◌∙◌, inl, inr, Bool, true, false, some, List, [], ◌∷◌,
  ◌++◌, ◌⊎◌, ◌==◌, ==_iff, Bool-cases, if◌then◌else◌, arith, ◌&&◌, leb, >>=-eq-some, some-eq, ltb,
  lt→ltb,
}
use mathlib.Core.Path.{subst}
use skitter.Vm.DropFlags.Frame.{living}
use skitter.Vm.DropFlags.Locals.{AreBytes}
use skitter.Vm.DropFlags.Lifetimes.{FlagOp, on, call, Acts, nil, cons, indices, run_frame}
use skitter.Vm.DropFlags.Lifetimes.Spec.{
  spec_one, put, spec_each, spec_acts, spec_act, spec_frame, AreScoped,
}
use skitter.Vm.DropFlags.Lifetimes.Refinement.{run_frame-spec_frame}
use skitter.Vm.DropFlags.Lifetimes.Frames.{leaving}
use skitter.Vm.DropFlags.Lifetimes.Counts.{
  times, begins, moves, acts_with, one_if, times-append, spec_one-balance, Balance, done_on,
  times-if, one_more, done_on-indices,
}

module _ (n : ℕ) where
  each-Balance :
      (op : FlagOp) (ns : List ℕ) (f : ℕ → Bool) (r : List ℕ × (ℕ → Bool))
      → spec_each op ns f ≡ some r
      → Balance n (done_on n begins op ns) (done_on n moves op ns) f r.0 r.1
  unfolding spec_each times
  each-Balance op [] f r h =
      subst (λ x. Balance n (done_on n begins op []) (done_on n moves op []) f x.0 x.1) (some-eq h)
        (ground arith)
  each-Balance op (m ∷ ms) f r h =
      let (one, e, h1) = >>=-eq-some (spec_one op (f m)) _ h in
      let (rest, i, h2) = >>=-eq-some (spec_each op ms (put f m one.1)) _ h1 in
      let before = spec_one-balance op (f m) one.0 one.1 e in
      let behind = each-Balance op ms (put f m one.1) rest i in
      subst (λ x. Balance n (done_on n begins op (m ∷ ms)) (done_on n moves op (m ∷ ms)) f x.0 x.1)
        (some-eq h2) (one_more n op m ms f one.0 one.1 rest.0 rest.1 before behind)

  -- One stretch of a frame after another.
  two-Balance :
      (a b c d : ℕ) (f g h : ℕ → Bool) (xs ys : List ℕ)
      → Balance n a b f xs g
      → Balance n c d g ys h
      → Balance n (a + c) (b + d) f (xs ++ ys) h
  two-Balance a b c d f g h xs ys p q = omega (arith, times-append n xs ys)

  acts-Balance :
      (acts : Acts) (f : ℕ → Bool) (r : List ℕ × (ℕ → Bool))
      → spec_acts acts f ≡ some r
      → Balance n (acts_with begins n acts) (acts_with moves n acts) f r.0 r.1
  unfolding spec_acts spec_act acts_with times
  acts-Balance nil f r h = subst (λ x. Balance n 0 0 f x.0 x.1) (some-eq h) (nothing (f n))
    where
      nothing : (b : Bool) → one_if b + 0 ≡ 0 + times n [] + one_if b
      nothing b = omega arith
  acts-Balance (cons (on op start end) acts) f r h =
      let (one, e, h1) = >>=-eq-some (spec_each op (indices op start end) f) _ h in
      let (rest, i, h2) = >>=-eq-some (spec_acts acts one.1) _ h1 in
      subst
        (λ x.
          Balance n (acts_with begins n (cons (on op start end) acts))
            (acts_with moves n (cons (on op start end) acts)) f x.0 x.1)
        (some-eq h2)
        (two-Balance (if begins op && (leb start n && leb n end) then 1 else 0)
          (if moves op && (leb start n && leb n end) then 1 else 0) (acts_with begins n acts)
          (acts_with moves n acts) f one.1 rest.1 one.0 rest.0
          (rw (← done_on-indices n begins op start end, ← done_on-indices n moves op start end)
            (each-Balance op (indices op start end) f one e))
          (acts-Balance acts one.1 rest i))
  acts-Balance (cons (call count callee) acts) f r h =
      let (one, e, h1) = >>=-eq-some (spec_act (call count callee) f) _ h in
      let (own, j, k) = >>=-eq-some (spec_frame (spec_acts callee) count) _ e in
      let (rest, i, h2) = >>=-eq-some (spec_acts acts one.1) _ h1 in
      subst (λ x. Balance n (acts_with begins n acts) (acts_with moves n acts) f x.0 x.1)
        (some-eq h2)
        (own_only (acts_with begins n acts) (acts_with moves n acts) f one rest (some-eq k)
          (acts-Balance acts one.1 rest i))
    where
      own_only :
          (a b : ℕ) (f : ℕ → Bool) (one rest : List ℕ × (ℕ → Bool))
          → ◌≡◌ {A = List ℕ × (ℕ → Bool)} ([], f) one
          → Balance n a b one.1 rest.0 rest.1
          → Balance n a b f (one.0 ++ rest.0) rest.1
      own_only a b f one rest e p =
          subst
            (λ (x : List ℕ × (ℕ → Bool)).
              Balance n a b x.1 rest.0 rest.1 → Balance n a b f (x.0 ++ rest.0) rest.1)
            e (λ q. q) p

  times-living :
      (count : ℕ) (g : ℕ → Bool)
      → times n (living count g) ≡ (if ltb n count then one_if (g n) else 0)
  unfolding times
  times-living zero g = ground arith
  times-living (suc c) g =
      times-if n (g c) c (living c g)
      ∙ ap (λ x. (if n == c then one_if (g c) else 0) + x) (times-living c g)
      ∙ last (Bool-cases (n == c))
    where
      last :
          (n == c ≡ true) ⊎ (n == c ≡ false)
          → (if n == c then one_if (g c) else 0) + (if ltb n c then one_if (g n) else 0)
            ≡ (if ltb n (suc c) then one_if (g n) else 0)
      last (inl e) =
          let same : one_if (g n) ≡ one_if (g c) = ap (λ x. one_if (g x)) ((==_iff n c).0 e) in
          ground arith
      last (inr e) = ground arith

-- Where a frame does not panic, however deep its calls go, each local of it is made alive as often as
-- it is moved out of or its glue is run: nothing is dropped twice, and nothing is left undropped; and
-- the flags of the callers are as they were.
pub run_frame-balance :
    (count : ℕ) (acts : Acts) (flags dropped flags' : List ℕ) (n : ℕ)
    → AreBytes flags
    → AreScoped count acts
    → run_frame count acts flags ≡ some (dropped, flags')
    → n < count
    → (acts_with begins n acts ≡ acts_with moves n acts + times n dropped) × (flags' ≡ flags)
unfolding spec_frame
run_frame-balance count acts flags dropped flags' n b s h l =
    let (own, e, g) =
      >>=-eq-some (spec_frame (spec_acts acts) count) (leaving flags)
        (sym (run_frame-spec_frame count acts flags b s) ∙ h) in
    let (r, i, j) = >>=-eq-some (spec_acts acts (λ m. false)) _ e in
    let inside = acts-Balance n acts (λ m. false) r i in
    let q : r.0 ++ living count r.1 ≡ own = some-eq j in
    let split : times n own ≡ times n r.0 + times n (living count r.1) =
      ap (times n) (sym q) ∙ times-append n r.0 (living count r.1) in
    let rest : times n (living count r.1) ≡ one_if (r.1 n) =
      times-living n count r.1 ∙ rw (lt→ltb n count l) refl in
    let same : times n own ≡ times n dropped = ap (λ x. times n x.0) (some-eq g) in
    (omega arith, sym (ap (λ x. x.1) (some-eq g)))
