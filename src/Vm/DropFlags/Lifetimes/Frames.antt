-- ===== src/Vm/DropFlags/Lifetimes/Frames.antt =====
-- 21
use skitter.Prelude.{
  ℕ, zero, suc, ◌+◌, ◌/◌, ◌≤◌, ◌<◌, ◌≡◌, refl, sym, ap, ◌∙◌, Bool, false, Option, none, some, List,
  [], ◌++◌, ◌>>=◌, All, length, take, >>=-eq-some, some-eq, arith, get_elem?, take-append_length,
  append-nil, replicate, lt→ltb, ◌-◌, ◌%◌,
}
use mathlib.Core.Path.{subst}
use skitter.Vm.DropFlags.{local_drop, enter, drop_all}
use skitter.Vm.DropFlags.Bit.{bit}
use skitter.Vm.DropFlags.Locals.{alive, or_zero, AreBytes}
use skitter.Vm.DropFlags.Frame.{
  living-same, get_elem?-behind, no_bit, drop_all-DropsAll, enter-Entered,
}
use skitter.Vm.DropFlags.Lifetimes.{FlagOp, range, range_rev, indices, frame}
use skitter.Vm.DropFlags.Lifetimes.Spec.{spec_frame}
use skitter.Vm.DropFlags.Lifetimes.Ops.{Kept, local_drop-Kept}
use skitter.Vm.DropFlags.Lifetimes.Agreement.{Agrees}

drop_all-Kept :
    (base n : ℕ) (flags : List ℕ) (r : List ℕ × List ℕ)
    → drop_all base n flags ≡ some r
    → take base r.1 ≡ take base flags
unfolding drop_all
drop_all-Kept base zero flags r h = subst (Kept base 0 flags) (ap (λ x. x.1) (some-eq h)) refl
drop_all-Kept base (suc n) flags r h =
    let (d, e, g) = >>=-eq-some (local_drop base n flags) _ h in
    let (rest, i, j) = >>=-eq-some (drop_all base n d.1) _ g in
    subst (Kept base n flags) (ap (λ x. x.1) (some-eq j))
      (drop_all-Kept base n d.1 rest i ∙ local_drop-Kept base n flags d e)

-- All locals of a new frame are dead.
no_flags :
    (m : ℕ) (flags : List ℕ) (i : ℕ) → alive (length flags) (flags ++ replicate m 0) i ≡ false
unfolding alive
no_flags m flags i =
    ap (λ o. bit (or_zero o) (i % 8)) (get_elem?-behind flags (replicate m 0) (i / 8))
    ∙ ap (λ b. bit b (i % 8)) (zeros m (i / 8))
    ∙ no_bit (i % 8)
  where
    zeros : (m j : ℕ) → or_zero (get_elem? (replicate m 0) j) ≡ 0
    zeros zero j = refl
    zeros (suc m) zero = refl
    zeros (suc m) (suc j) = zeros m j

enter-dead :
    (count : ℕ) (flags : List ℕ) (i : ℕ) → alive (length flags) (enter count flags) i ≡ false
unfolding enter
enter-dead zero flags i =
    ap (λ l. alive (length flags) l i) (sym (append-nil flags)) ∙ no_flags 0 flags i
enter-dead (suc n) flags i =
    rw (lt→ltb 0 (suc n) (omega arith)) (no_flags ((suc n - 1) / 8 + 1) flags i)

enter-take : (count : ℕ) (flags : List ℕ) → take (length flags) (enter count flags) ≡ flags
unfolding enter
enter-take zero flags =
    ap (take (length flags)) (sym (append-nil flags)) ∙ take-append_length flags []
enter-take (suc n) flags =
    rw (lt→ltb 0 (suc n) (omega arith))
      (take-append_length flags (replicate ((suc n - 1) / 8 + 1) 0))

-- What a frame gives: the locals it dropped, and the flags of its callers.
abbrev pub leaving : List ℕ → List ℕ → Option (List ℕ × List ℕ)
leaving flags dropped = some (dropped, flags)

module _ (count : ℕ) (flags : List ℕ) (b : AreBytes flags) where
  ended :
      (o : Option (List ℕ × List ℕ)) (s : Option (List ℕ × (ℕ → Bool)))
      → Agrees (length flags) (enter count flags) o s
      → frame (λ base new. o) count flags ≡ (spec_frame (λ f. s) count >>= leaving flags)
  unfolding Agrees frame spec_frame
  ended o none a = rw a refl
  ended o (some (dropped, f)) (flags', e, h) =
      let room = (enter-Entered count flags b).room in
      let d = drop_all-DropsAll (length flags) count flags' h.bytes (omega (arith, h.kept, room)) in
      let same = living-same count (alive (length flags) flags') f (λ i l. h.lives i) in
      let callers : take (length flags) d.after ≡ flags =
        drop_all-Kept (length flags) count flags' _ d.result ∙ h.callers ∙ enter-take count flags in
      rw (e, d.result, same, callers) refl

  pub frame_lem :
      (body : ℕ → List ℕ → Option (List ℕ × List ℕ))
      (spec : (ℕ → Bool) → Option (List ℕ × (ℕ → Bool)))
      → ((base : ℕ) (new : List ℕ)
          → AreBytes new
          → ((i : ℕ) → alive base new i ≡ false)
          → base + (count + 7) / 8 ≤ length new
          → Agrees base new (body base new) (spec (λ n. false)))
      → frame body count flags ≡ (spec_frame spec count >>= leaving flags)
  unfolding frame spec_frame
  frame_lem body spec h =
      let e = enter-Entered count flags b in
      ended (body (length flags) (enter count flags)) (spec (λ n. false))
        (h (length flags) (enter count flags) e.bytes (enter-dead count flags) e.room)

All-range : (count start k : ℕ) → (0 < k → start + k ≤ count) → All (λ n. n < count) (range start k)
unfolding range
All-range count start zero h = tt
All-range count start (suc k) h =
    let below = h (omega arith) in (omega arith, All-range count (suc start) k (λ l. omega arith))

All-range_rev :
    (count start k : ℕ) → (0 < k → start + k ≤ count) → All (λ n. n < count) (range_rev start k)
unfolding range_rev
All-range_rev count start zero h = tt
All-range_rev count start (suc k) h =
    let below = h (omega arith) in (omega arith, All-range_rev count start k (λ l. omega arith))

pub All-indices :
    (count : ℕ) (op : FlagOp) (start end : ℕ)
    → end < count
    → All (λ n. n < count) (indices op start end)
unfolding indices
All-indices count FlagOp.init start end h =
    All-range count start (suc end - start) (λ l. omega arith)
All-indices count FlagOp.move start end h =
    All-range count start (suc end - start) (λ l. omega arith)
All-indices count FlagOp.drop start end h =
    All-range_rev count start (suc end - start) (λ l. omega arith)
All-indices count FlagOp.drop_init start end h =
    All-range_rev count start (suc end - start) (λ l. omega arith)
