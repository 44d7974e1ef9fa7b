-- ===== src/Vm/DropFlags/Lifetimes/Ops.antt =====
-- What an instruction of src/vm/vm.rs on one drop flag does to the set of live locals, and that it
-- leaves the flags of the callers alone.
use skitter.Prelude.{
  ℕ, zero, suc, ◌≤◌, ◌<◌, ◌≡◌, refl, ap, inl, inr, Bool, true, false, Option, none, some, List, [],
  ◌∷◌, ◌>>=◌, length, take, set, ◌⊎◌, >>=-eq-some, some-eq, if◌then◌else◌, arith, get_elem?,
}
use Prim.Native.Nat.{bit_or, bit_xor}
use mathlib.Core.Path.{subst}
use skitter.Vm.DropFlags.{
  local_init, local_move, local_drop, local_drop_init, at_byte, is_set, mask,
}
use skitter.Vm.DropFlags.Locals.{alive, AreBytes, Puts, Matches, Ran, flags-keep_set}
use skitter.Vm.DropFlags.Frame.{Ran-eq}
use skitter.Vm.DropFlags.Lifetimes.{FlagOp, one}
use skitter.Vm.DropFlags.Lifetimes.Spec.{spec_one}

-- The flags before a place are those of the callers.
take-set :
    {A : Type 0} (m : ℕ) (xs : List A) (i : ℕ) (v : A) → m ≤ i → take m (set xs i v) ≡ take m xs
take-set zero xs i v h = refl
take-set (suc m) [] i v h = refl
take-set (suc m) (x ∷ xs) zero v h = absurd (omega arith)
take-set (suc m) (x ∷ xs) (suc i) v h = ap (λ l. x ∷ l) (take-set m xs i v (omega arith))

chosen :
    {R : Type 0} (b : Bool) (x y : Option R) {r : R}
    → (if b then x else y) ≡ some r
    → (x ≡ some r) ⊎ (y ≡ some r)
chosen true x y h = inl h
chosen false x y h = inr h

module _ (base n : ℕ) (flags : List ℕ) where
  abbrev pub Kept : List ℕ → Type 0
  Kept flags' = take base flags' ≡ take base flags

  written : (v : ℕ) (flags' : List ℕ) → set flags (at_byte base n) v ≡ flags' → Kept flags'
  written v flags' e = subst Kept e (take-set base flags (at_byte base n) v (omega arith))

  local_init-Kept : (flags' : List ℕ) → local_init base n flags ≡ some flags' → Kept flags'
  unfolding local_init
  local_init-Kept flags' h =
      let (byte, e, g) = >>=-eq-some (get_elem? flags (at_byte base n)) _ h in
      elim (chosen (is_set byte n) none (some (set flags (at_byte base n) (bit_or byte (mask n))))
        g) [ inl q ↦ cc | inr q ↦ written (bit_or byte (mask n)) flags' (some-eq q) ]

  local_move-Kept : (flags' : List ℕ) → local_move base n flags ≡ some flags' → Kept flags'
  unfolding local_move
  local_move-Kept flags' h =
      let (byte, e, g) = >>=-eq-some (get_elem? flags (at_byte base n)) _ h in
      elim (chosen (is_set byte n) (some (set flags (at_byte base n) (bit_xor byte (mask n)))) none
        g) [ inl q ↦ written (bit_xor byte (mask n)) flags' (some-eq q) | inr q ↦ cc ]

  pub local_drop-Kept : (r : Bool × List ℕ) → local_drop base n flags ≡ some r → Kept r.1
  unfolding local_drop
  local_drop-Kept r h =
      let (byte, e, g) = >>=-eq-some (get_elem? flags (at_byte base n)) _ h in
      elim (chosen (is_set byte n) (some (true, set flags (at_byte base n) (bit_xor byte (mask n))))
        (some (false, flags)) g) [
          | inl q ↦ written (bit_xor byte (mask n)) r.1 (ap (λ x. x.1) (some-eq q))
          | inr q ↦ subst Kept (ap (λ x. x.1) (some-eq q)) refl
        ]

  local_drop_init-Kept : (r : Bool × List ℕ) → local_drop_init base n flags ≡ some r → Kept r.1
  unfolding local_drop_init
  local_drop_init-Kept r h =
      let (byte, e, g) = >>=-eq-some (get_elem? flags (at_byte base n)) _ h in
      elim (chosen (is_set byte n) (some (true, flags))
        (some (false, set flags (at_byte base n) (bit_or byte (mask n)))) g) [
          | inl q ↦ subst Kept (ap (λ x. x.1) (some-eq q)) refl
          | inr q ↦ written (bit_or byte (mask n)) r.1 (ap (λ x. x.1) (some-eq q))
        ]

  one-Kept : (op : FlagOp) (r : Bool × List ℕ) → one base op n flags ≡ some r → Kept r.1
  unfolding one
  one-Kept FlagOp.init r h =
      let (flags', e, g) = >>=-eq-some (local_init base n flags) _ h in
      subst Kept (ap (λ x. x.1) (some-eq g)) (local_init-Kept flags' e)
  one-Kept FlagOp.move r h =
      let (flags', e, g) = >>=-eq-some (local_move base n flags) _ h in
      subst Kept (ap (λ x. x.1) (some-eq g)) (local_move-Kept flags' e)
  one-Kept FlagOp.drop r h = local_drop-Kept r h
  one-Kept FlagOp.drop_init r h = local_drop_init-Kept r h

  -- What an operation does to the set of live locals, as the specification says.
  unfoldable pub Ones : Option (Bool × List ℕ) → Option (Bool × Bool) → Type 0
  Ones o none = o ≡ none
  Ones o (some (ran, v)) =
      (flags' : List ℕ) × (o ≡ some (ran, flags')) × Puts base n v flags flags' × Kept flags'

  init-Ones :
      (o : Option (List ℕ)) (live : Bool)
      → ((f : List ℕ) → o ≡ some f → Kept f)
      → Matches base n flags o (if live then none else some true)
      → Ones (o >>= λ f. some (false, f)) (spec_one FlagOp.init live)
  unfolding Ones
  init-Ones none true k m = refl
  init-Ones none false k m = absurd m
  init-Ones (some f) true k m = absurd m
  init-Ones (some f) false k m = (f, refl, m, k f refl)

  move-Ones :
      (o : Option (List ℕ)) (live : Bool)
      → ((f : List ℕ) → o ≡ some f → Kept f)
      → Matches base n flags o (if live then some false else none)
      → Ones (o >>= λ f. some (false, f)) (spec_one FlagOp.move live)
  unfolding Ones
  move-Ones none true k m = absurd m
  move-Ones none false k m = refl
  move-Ones (some f) true k m = (f, refl, m, k f refl)
  move-Ones (some f) false k m = absurd m

  Ran-Ones :
      (o : Option (Bool × List ℕ)) (ran v : Bool)
      → ((r : Bool × List ℕ) → o ≡ some r → Kept r.1)
      → Ran base n flags o ran v
      → Ones o (some (ran, v))
  unfolding Ones
  Ran-Ones o ran v k m = let (f, e, p) = Ran-eq base n flags o ran v m in (f, e, p, k (ran, f) e)

  pub one-Ones :
      (op : FlagOp)
      → AreBytes flags
      → at_byte base n < length flags
      → Ones (one base op n flags) (spec_one op (alive base flags n))
  unfolding one
  one-Ones FlagOp.init h k =
      init-Ones (local_init base n flags) (alive base flags n) local_init-Kept
        (flags-keep_set base n flags h k).0
  one-Ones FlagOp.move h k =
      move-Ones (local_move base n flags) (alive base flags n) local_move-Kept
        (flags-keep_set base n flags h k).1
  one-Ones FlagOp.drop h k =
      Ran-Ones (local_drop base n flags) (alive base flags n) false local_drop-Kept
        (flags-keep_set base n flags h k).2
  one-Ones FlagOp.drop_init h k =
      Ran-Ones (local_drop_init base n flags) (alive base flags n) true local_drop_init-Kept
        (flags-keep_set base n flags h k).3
