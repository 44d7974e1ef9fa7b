-- ===== src/Vm/DropFlags/Lifetimes/Counts.antt =====
-- What is counted in a frame of src/vm/vm.rs: how often a local is made alive, is moved out of, and has
-- its glue run.
use skitter.Prelude.{
  ℕ, zero, suc, ◌+◌, ◌≡◌, refl, ap, ◌∙◌, Bool, true, false, some, List, [], ◌∷◌, ◌++◌, ◌==◌, ==_iff,
  if◌then◌else◌, arith, ◌-◌, ◌&&◌, leb, ltb,
}
use skitter.Vm.DropFlags.Lifetimes.{FlagOp, on, call, Acts, nil, cons, range, range_rev, indices}
use skitter.Vm.DropFlags.Lifetimes.Spec.{spec_one, put}

-- How often a local stands in a list.
unfoldable pub times : ℕ → List ℕ → ℕ
times n [] = 0
times n (m ∷ ms) = if n == m then suc (times n ms) else times n ms

pub times-append : (n : ℕ) (xs ys : List ℕ) → times n (xs ++ ys) ≡ times n xs + times n ys
unfolding times
times-append n [] ys = omega arith
times-append n (x ∷ xs) ys = ground (arith, times-append n xs ys)

-- Whether an operation makes a local alive, and whether it moves out of it.
abbrev pub begins : FlagOp → Bool
begins FlagOp.init = true
begins FlagOp.drop_init = true
begins _ = false

abbrev pub moves : FlagOp → Bool
moves FlagOp.move = true
moves _ = false

-- How often a frame does either to a local of its own.
unfoldable pub acts_with : (FlagOp → Bool) → ℕ → Acts → ℕ
acts_with test n nil = 0
acts_with test n (cons (on op start end) acts) =
    (if test op && (leb start n && leb n end) then 1 else 0) + acts_with test n acts
acts_with test n (cons (call count callee) acts) = acts_with test n acts

abbrev pub one_if : Bool → ℕ
one_if true = 1
one_if false = 0

pub spec_one-balance :
    (op : FlagOp) (live ran v : Bool)
    → spec_one op live ≡ some (ran, v)
    → one_if live + one_if (begins op) ≡ one_if (moves op) + one_if ran + one_if v
spec_one-balance FlagOp.init true ran v h = cc
spec_one-balance FlagOp.init false ran v h = ground arith
spec_one-balance FlagOp.move true ran v h = ground arith
spec_one-balance FlagOp.move false ran v h = cc
spec_one-balance FlagOp.drop live ran v h = ground arith
spec_one-balance FlagOp.drop_init live ran v h = ground arith

module _ (n : ℕ) where
  abbrev pub Balance : ℕ → ℕ → (ℕ → Bool) → List ℕ → (ℕ → Bool) → Type 0
  Balance begun moved f dropped g = one_if (f n) + begun ≡ moved + times n dropped + one_if (g n)

  abbrev pub done_on : (FlagOp → Bool) → FlagOp → List ℕ → ℕ
  done_on test op ns = if test op then times n ns else 0

  pub times-if :
      (ran : Bool) (m : ℕ) (d : List ℕ)
      → times n (if ran then m ∷ d else d) ≡ (if n == m then one_if ran else 0) + times n d
  unfolding times
  times-if true m d = ground arith
  times-if false m d = ground arith

  done_on-cons :
      (test : FlagOp → Bool) (op : FlagOp) (m : ℕ) (ms : List ℕ)
      → done_on test op (m ∷ ms) ≡ (if n == m then one_if (test op) else 0) + done_on test op ms
  unfolding times
  done_on-cons test op m ms = by (test op)
    where
      by :
          (b : Bool)
          → (if b then times n (m ∷ ms) else 0)
            ≡ (if n == m then one_if b else 0) + (if b then times n ms else 0)
      by true = ground arith
      by false = ground arith

  one_more_if :
      (b : Bool) (op : FlagOp) (m : ℕ) (ms : List ℕ) (f : ℕ → Bool) (ran v : Bool) (d : List ℕ)
      (g : ℕ → Bool)
      → one_if (f m) + one_if (begins op) ≡ one_if (moves op) + one_if ran + one_if v
      → one_if (if b then v else f n) + done_on begins op ms
        ≡ done_on moves op ms + times n d + one_if (g n)
      → (b ≡ true → f n ≡ f m)
      → times n (if ran then m ∷ d else d) ≡ (if b then one_if ran else 0) + times n d
      → done_on begins op (m ∷ ms) ≡ (if b then one_if (begins op) else 0) + done_on begins op ms
      → done_on moves op (m ∷ ms) ≡ (if b then one_if (moves op) else 0) + done_on moves op ms
      → Balance
          (done_on begins op (m ∷ ms))
          (done_on moves op (m ∷ ms))
          f
          (if ran then m ∷ d else d)
          g
  one_more_if true op m ms f ran v d g before behind same x y z =
      let e = ap one_if (same refl) in omega arith
  one_more_if false op m ms f ran v d g before behind same x y z = omega arith

  -- One local more.
  pub one_more :
      (op : FlagOp) (m : ℕ) (ms : List ℕ) (f : ℕ → Bool) (ran v : Bool) (d : List ℕ) (g : ℕ → Bool)
      → one_if (f m) + one_if (begins op) ≡ one_if (moves op) + one_if ran + one_if v
      → Balance (done_on begins op ms) (done_on moves op ms) (put f m v) d g
      → Balance
          (done_on begins op (m ∷ ms))
          (done_on moves op (m ∷ ms))
          f
          (if ran then m ∷ d else d)
          g
  unfolding times
  one_more op m ms f ran v d g before behind =
      one_more_if (n == m) op m ms f ran v d g before behind (λ e. ap f ((==_iff n m).0 e))
        (times-if ran m d) (done_on-cons begins op m ms) (done_on-cons moves op m ms)

  times-range : (start k : ℕ) → times n (range start k) ≡ one_if (leb start n && ltb n (start + k))
  unfolding range times
  times-range start zero = ground arith
  times-range start (suc k) = ground (arith, times-range (suc start) k)

  times-range_rev :
      (start k : ℕ) → times n (range_rev start k) ≡ one_if (leb start n && ltb n (start + k))
  unfolding range_rev times
  times-range_rev start zero = ground arith
  times-range_rev start (suc k) = ground (arith, times-range_rev start k)

  within :
      (start end : ℕ)
      → one_if (leb start n && ltb n (start + (suc end - start)))
        ≡ one_if (leb start n && leb n end)
  within start end = ground arith

  times-indices :
      (op : FlagOp) (start end : ℕ)
      → times n (indices op start end) ≡ one_if (leb start n && leb n end)
  unfolding indices
  times-indices FlagOp.init start end = times-range start (suc end - start) ∙ within start end
  times-indices FlagOp.move start end = times-range start (suc end - start) ∙ within start end
  times-indices FlagOp.drop start end = times-range_rev start (suc end - start) ∙ within start end
  times-indices FlagOp.drop_init start end =
      times-range_rev start (suc end - start) ∙ within start end

  pub done_on-indices :
      (test : FlagOp → Bool) (op : FlagOp) (start end : ℕ)
      → done_on test op (indices op start end)
        ≡ (if test op && (leb start n && leb n end) then 1 else 0)
  done_on-indices test op start end =
      ap (λ x. if test op then x else 0) (times-indices op start end)
      ∙ by (test op) (leb start n && leb n end)
    where
      by : (b c : Bool) → (if b then one_if c else 0) ≡ (if b && c then 1 else 0)
      by true true = refl
      by true false = refl
      by false c = refl
