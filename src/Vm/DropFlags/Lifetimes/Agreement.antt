-- ===== src/Vm/DropFlags/Lifetimes/Agreement.antt =====
-- 106
use skitter.Prelude.{
  ℕ, ◌+◌, ◌/◌, ◌≤◌, ◌<◌, ◌≡◌, refl, sym, ap, ◌∙◌, Bool, Option, none, some, List, [], ◌∷◌, ◌>>=◌,
  ◌==◌, All, length, take, if◌then◌else◌, arith,
}
use mathlib.Core.Path.{subst}
use skitter.Vm.DropFlags.Locals.{alive, AreBytes}
use skitter.Vm.DropFlags.Lifetimes.{FlagOp, one, each}
use skitter.Vm.DropFlags.Lifetimes.Spec.{spec_one, put, spec_each}
use skitter.Vm.DropFlags.Lifetimes.Ops.{Ones, one-Ones}

-- The flags stand for a set of live locals, and the callers' flags are as they were.
pub record Holds (base : ℕ) (flags : List ℕ) (flags' : List ℕ) (f : ℕ → Bool) : Type 0 where
  pub kept : length flags' ≡ length flags
  pub bytes : AreBytes flags'
  pub callers : take base flags' ≡ take base flags
  pub lives : (i : ℕ) → alive base flags' i ≡ f i

-- The outcome that the specification has, in flags.
unfoldable pub Agrees :
    ℕ → List ℕ → Option (List ℕ × List ℕ) → Option (List ℕ × (ℕ → Bool)) → Type 0
Agrees base flags o none = o ≡ none
Agrees base flags o (some (dropped, f)) =
    (flags' : List ℕ) × (o ≡ some (dropped, flags')) × Holds base flags flags' f

module _ (base : ℕ) (flags : List ℕ) where
  pub from_Holds :
      (flags' : List ℕ) (f : ℕ → Bool) (o : Option (List ℕ × List ℕ))
      (s : Option (List ℕ × (ℕ → Bool)))
      → Holds base flags flags' f
      → Agrees base flags' o s
      → Agrees base flags o s
  unfolding Agrees
  from_Holds flags' f o none h a = a
  from_Holds flags' f o (some (dropped, g)) h (flags'', e, q) = (
    flags'',
    e,
    record {
      kept = q.kept ∙ h.kept;
      bytes = q.bytes;
      callers = q.callers ∙ h.callers;
      lives = q.lives;
    },
  )

  pub bind-Agrees :
      (o : Option (List ℕ × List ℕ)) (s : Option (List ℕ × (ℕ → Bool)))
      (k : List ℕ × List ℕ → Option (List ℕ × List ℕ))
      (l : List ℕ × (ℕ → Bool) → Option (List ℕ × (ℕ → Bool)))
      → Agrees base flags o s
      → ((dropped flags' : List ℕ) (g : ℕ → Bool)
          → Holds base flags flags' g
          → Agrees base flags (k (dropped, flags')) (l (dropped, g)))
      → Agrees base flags (o >>= k) (s >>= l)
  unfolding Agrees
  bind-Agrees o none k l a f = rw a refl
  bind-Agrees o (some (dropped, g)) k l (flags', e, h) f =
      subst (λ x. Agrees base flags (x >>= k) (l (dropped, g))) (sym e) (f dropped flags' g h)

  bind-Ones :
      (n : ℕ) (f : ℕ → Bool) (o : Option (Bool × List ℕ)) (s : Option (Bool × Bool))
      (k : Bool × List ℕ → Option (List ℕ × List ℕ))
      (l : Bool × Bool → Option (List ℕ × (ℕ → Bool)))
      → ((i : ℕ) → alive base flags i ≡ f i)
      → Ones base n flags o s
      → ((ran v : Bool) (flags' : List ℕ)
          → Holds base flags flags' (put f n v)
          → Agrees base flags (k (ran, flags')) (l (ran, v)))
      → Agrees base flags (o >>= k) (s >>= l)
  unfolding Agrees Ones
  bind-Ones n f o none k l same e g = rw e refl
  bind-Ones n f o (some (ran, v)) k l same (flags', e, p, kept) g =
      subst (λ x. Agrees base flags (x >>= k) (l (ran, v))) (sym e)
        (g ran v flags' (record {
          kept = p.kept;
          bytes = p.bytes;
          callers = kept;
          lives = λ i. p.sets i ∙ ap (λ b. if i == n then v else b) (same i);
        }))

module _ (base count : ℕ) where
  pub each-Agrees :
      (op : FlagOp) (ns : List ℕ) (flags : List ℕ) (f : ℕ → Bool)
      → AreBytes flags
      → ((i : ℕ) → alive base flags i ≡ f i)
      → base + (count + 7) / 8 ≤ length flags
      → All (λ n. n < count) ns
      → Agrees base flags (each base op ns flags) (spec_each op ns f)
  unfolding each spec_each Agrees
  each-Agrees op [] flags f b h k s =
      (flags, refl, record { kept = refl; bytes = b; callers = refl; lives = h })
  each-Agrees op (n ∷ ns) flags f b h k (s, ss) =
      bind-Ones base flags n f (one base op n flags) (spec_one op (f n)) _ _ h
        (subst (λ x. Ones base n flags (one base op n flags) (spec_one op x)) (h n)
          (one-Ones base n flags op b (omega arith)))
        (λ ran v flags' p. from_Holds base flags flags' (put f n v) _ _ p (
          bind-Agrees base flags' (each base op ns flags') (spec_each op ns (put f n v)) _ _
            (each-Agrees op ns flags' (put f n v) p.bytes p.lives (omega (arith, p.kept)) ss)
            (λ dropped flags'' g q. (flags'', refl, q))))
