-- ===== src/Vm/DropFlags/Frame.antt =====
-- The end of `run_bytecode` in src/vm/vm.rs: the loop that drops the locals of a frame.
use native.Mathlib.Nat.{zero-div}
use skitter.Prelude.{
  ℕ, zero, suc, ◌+◌, ◌-◌, ◌/◌, ◌%◌, ◌^◌, ◌≤◌, ◌<◌, ◌≡◌, refl, ap, ◌∙◌, Bool, false, Option, none,
  some, List, [], ◌∷◌, ◌++◌, ltb, if◌then◌else◌, length, arith, get_elem?, replicate, lt→ltb,
  length-append, length-replicate,
}
use skitter.Vm.DropFlags.{local_drop, drop_all, enter}
use skitter.Vm.DropFlags.Bit.{bit}
use skitter.Vm.DropFlags.Locals.{alive, or_zero, AreBytes, Puts, Ran, flags-keep_set}

-- The live locals below `n`, the last first.
abbrev pub living : ℕ → (ℕ → Bool) → List ℕ
living zero f = []
living (suc n) f = if f n then n ∷ living n f else living n f

pub living-same : (n : ℕ) (f g : ℕ → Bool) → ((i : ℕ) → i < n → f i ≡ g i) → living n f ≡ living n g
living-same zero f g h = refl
living-same (suc n) f g h = rw (h n (omega arith), living-same n f g (λ i k. h i (omega arith)))

-- What the loop over the locals below `count` gives.
pub record DropsAll (base count : ℕ) (flags : List ℕ) (r : Option (List ℕ × List ℕ)) : Type 0 where
  pub after : List ℕ
  pub result : r ≡ some (living count (alive base flags), after)
  pub kept : length after ≡ length flags
  pub bytes : AreBytes after
  pub cleared : (i : ℕ) → alive base after i ≡ (if ltb i count then false else alive base flags i)

-- `Ran` in equations.
pub Ran-eq :
    (base n : ℕ) (flags : List ℕ) (o : Option (Bool × List ℕ)) (b v : Bool)
    → Ran base n flags o b v
    → (flags' : List ℕ) × (o ≡ some (b, flags')) × Puts base n v flags flags'
Ran-eq base n flags (some (ran, flags')) b v (e, p) = (flags', ap (λ c. some (c, flags')) e, p)
Ran-eq base n flags none b v p = absurd p

-- The loop at the end of a frame whose flags are there runs the glue of every live local below
-- `count`, each once and the last first, and of no other; it leaves them dead, and the locals from
-- `count` on as they were.
pub drop_all-DropsAll :
    (base count : ℕ) (flags : List ℕ)
    → AreBytes flags
    → base + (count + 7) / 8 ≤ length flags
    → DropsAll base count flags (drop_all base count flags)
unfolding drop_all
drop_all-DropsAll base zero flags h k = record {
  after = flags;
  result = refl;
  kept = refl;
  bytes = h;
  cleared = λ i. ground arith;
}
drop_all-DropsAll base (suc n) flags h k =
    let (flags', e, p) =
      Ran-eq base n flags (local_drop base n flags) (alive base flags n) false
        (flags-keep_set base n flags h (omega arith)).2 in
    let rest = drop_all-DropsAll base n flags' p.bytes (omega (arith, p.kept)) in
    let same =
      living-same n (alive base flags') (alive base flags) (λ i l. p.sets i ∙ ground arith) in
    record {
      after = rest.after;
      result = rw (e, rest.result, same);
      kept = rest.kept ∙ p.kept;
      bytes = rest.bytes;
      cleared = λ i. rest.cleared i ∙ rw (p.sets i) (ground arith);
    }

-- The flags of a frame that was just entered.
pub record Entered (count : ℕ) (flags flags' : List ℕ) : Type 0 where
  pub room : length flags + (count + 7) / 8 ≤ length flags'
  pub bytes : AreBytes flags'
  pub dead : (i : ℕ) → i < count → alive (length flags) flags' i ≡ false

replicate-AreBytes : (m : ℕ) → AreBytes (replicate m 0)
replicate-AreBytes zero = tt
replicate-AreBytes (suc m) = (omega arith, replicate-AreBytes m)

append-AreBytes : (flags : List ℕ) (m : ℕ) → AreBytes flags → AreBytes (flags ++ replicate m 0)
append-AreBytes [] m h = replicate-AreBytes m
append-AreBytes (f ∷ flags) m (h, hs) = (h, append-AreBytes flags m hs)

get_elem?-zeros : (m j : ℕ) → j < m → get_elem? {A = ℕ} (replicate m 0) j ≡ some 0
get_elem?-zeros zero j h = absurd (omega arith)
get_elem?-zeros (suc m) zero h = refl
get_elem?-zeros (suc m) (suc j) h = get_elem?-zeros m j (omega arith)

pub get_elem?-behind :
    (flags zeros : List ℕ) (j : ℕ)
    → get_elem? (flags ++ zeros) (length flags + j) ≡ get_elem? zeros j
get_elem?-behind [] zeros j = ap (get_elem? zeros) (omega arith)
get_elem?-behind (f ∷ flags) zeros j =
    let same : suc (length flags) + j ≡ suc (length flags + j) = omega arith in
    ap (get_elem? (f ∷ flags ++ zeros)) same ∙ get_elem?-behind flags zeros j

pub no_bit : (k : ℕ) → bit 0 k ≡ false
no_bit k = rw (zero-div (2 ^ k)) refl

-- Entering a frame behind the flags of the callers makes a byte for every eight locals, all of them
-- dead, so that the frame may be dropped.
pub enter-Entered :
    (count : ℕ) (flags : List ℕ) → AreBytes flags → Entered count flags (enter count flags)
unfolding enter alive
enter-Entered zero flags h = record {
  room = omega arith;
  bytes = h;
  dead = λ i k. absurd (omega arith);
}
enter-Entered (suc n) flags h =
    let m = (suc n - 1) / 8 + 1 in
    rw (lt→ltb 0 (suc n) (omega arith)) (record {
      room = omega (arith, length-append flags (replicate m 0), length-replicate {A = ℕ} m 0);
      bytes = append-AreBytes flags m h;
      dead = λ i k.
          ap (λ o. bit (or_zero o) (i % 8))
            (get_elem?-behind flags (replicate m 0) (i / 8)
              ∙ get_elem?-zeros m (i / 8) (omega arith))
          ∙ no_bit (i % 8);
    })
