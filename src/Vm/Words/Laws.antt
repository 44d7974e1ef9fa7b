-- ===== src/Vm/Words/Laws.antt =====
-- Patterns that wrap (build.rs): what a wrapped integer depends on, and that sums, differences and
-- products do not depend on the sign that the operands are read with.
use native.Mathlib.Nat.{
  add-mul-mod_self_left, mul-suc, mul-add, add-mul, mul_comm, mod-eq_of_lt, mod-lt, mod-add-div,
}
use skitter.Prelude.{
  ℕ, suc, ◌+◌, ◌-◌, ◌*◌, ◌/◌, ◌%◌, ◌<◌, ◌≡◌, ap, sym, ◌∙◌, ◌⊎◌, inl, inr, false, ltb, leb, arith,
  Bool-cases, leb→le,
}
use skitter.Prelude.Int.{ℤ, pos, negsuc, sub_ℕ, ◌+ℤ◌, ◌-ℤ◌, ◌*ℤ◌, eqb_ℤ}
use skitter.Vm.Words.{Bits, b8, b16, b32, b64, b128, modulus, half, to_signed, wrap}

pub modulus_pos : (w : Bits) → 0 < modulus w
modulus_pos b8 = omega arith
modulus_pos b16 = omega arith
modulus_pos b32 = omega arith
modulus_pos b64 = omega arith
modulus_pos b128 = omega arith

pub wrap-lt : (w : Bits) (z : ℤ) → wrap w z < modulus w
unfolding wrap
wrap-lt w (pos n) = mod-lt n (modulus_pos w)
wrap-lt w (negsuc n) = omega (arith, modulus_pos w)

leb_false→lt : (a b : ℕ) → leb a b ≡ false → b < a
leb_false→lt a b h = ground arith

-- The pattern of p - n differs from it by a multiple of the modulus.
wrap-sub_ℕ :
    (w : Bits) (p n : ℕ)
    → (u : ℕ) × (v : ℕ) × (wrap w (sub_ℕ p n) + n + modulus w * u ≡ p + modulus w * v)
unfolding wrap
wrap-sub_ℕ w p n = elim (Bool-cases (leb n p)) [
  | inl h ↦
      ((p - n) / modulus w, 0, rw h (omega (arith, leb→le n p h, mod-add-div (p - n) (modulus w))))
  | inr h ↦ (
    0,
    suc ((n - p - 1) / modulus w),
    rw h (
        omega (
          arith,
          leb_false→lt n p h,
          mod-lt (n - p - 1) (modulus_pos w),
          mod-add-div (n - p - 1) (modulus w),
          mul-suc (modulus w) ((n - p - 1) / modulus w),
        )),
  )
]

-- Integers that differ by a multiple of the modulus have the same pattern.
pub wrap-cong :
    (w : Bits) (p n p' n' j k : ℕ)
    → p + n' + modulus w * j ≡ p' + n + modulus w * k
    → wrap w (sub_ℕ p n) ≡ wrap w (sub_ℕ p' n')
wrap-cong w p n p' n' j k e =
    let (u, v, g) = wrap-sub_ℕ w p n in
    let (u', v', g') = wrap-sub_ℕ w p' n' in
    let r = wrap w (sub_ℕ p n) in
    let r' = wrap w (sub_ℕ p' n') in
    let t = modulus w in
    let same : r + t * u + t * v' + t * j ≡ r' + t * u' + t * v + t * k = omega (arith, e, g, g') in
    sym (mod-eq_of_lt (wrap-lt w (sub_ℕ p n)))
    ∙ sym (three r (u) (v') j)
    ∙ ap (λ n. n % t) same
    ∙ three r' u' v k
    ∙ mod-eq_of_lt (wrap-lt w (sub_ℕ p' n'))
  where
    three :
        (r a b c : ℕ)
        → (r + modulus w * a + modulus w * b + modulus w * c) % modulus w ≡ r % modulus w
    three r a b c =
        add-mul-mod_self_left (r + modulus w * a + modulus w * b) (modulus w) c
        ∙ add-mul-mod_self_left (r + modulus w * a) (modulus w) b
        ∙ add-mul-mod_self_left r (modulus w) a

pub to_signed-cases :
    (w : Bits) (a : ℕ) → (to_signed w a ≡ pos a) ⊎ (to_signed w a ≡ negsuc (modulus w - 1 - a))
unfolding to_signed
to_signed-cases w a = elim (Bool-cases (ltb a (half w))) [ inl h ↦ inl (rw h) | inr h ↦ inr (rw h) ]

-- A product with a number, however large, does not depend on the sign of the pattern.
pub wrap-mul_pos :
    (w : Bits) (a c : ℕ) → a < modulus w → wrap w (to_signed w a *ℤ pos c) ≡ wrap w (pos a *ℤ pos c)
wrap-mul_pos w a c h = elim (to_signed-cases w a) [
  | inl e ↦ rw e
  | inr e ↦
      let x = suc (modulus w - 1 - a) in
      let whole : a + x ≡ modulus w = omega arith in
      rw e (
        wrap-cong w (0 * c + x * 0) (0 + x * c) (a * c + 0) (a * 0 + 0 * c) c 0
          (omega (arith, add-mul a x c, ap (λ n. n * c) whole)))
]

module _ (w : Bits) (a b : ℕ) (h : a < modulus w) (k : b < modulus w) where
  pub wrap-add_signed : wrap w (to_signed w a +ℤ to_signed w b) ≡ wrap w (pos a +ℤ pos b)
  wrap-add_signed = elim (to_signed-cases w a) [
    | inl e ↦ elim (to_signed-cases w b) [
      | inl f ↦ rw (e, f)
      | inr f ↦
          rw (e, f) (wrap-cong w (a + 0) (0 + suc (modulus w - 1 - b)) (a + b) 0 1 0 (omega arith))
    ]
    | inr e ↦ elim (to_signed-cases w b) [
      | inl f ↦
          rw (e, f) (wrap-cong w (0 + b) (suc (modulus w - 1 - a) + 0) (a + b) 0 1 0 (omega arith))
      | inr f ↦
          rw (e, f)
            (wrap-cong w 0 (suc (modulus w - 1 - a) + suc (modulus w - 1 - b)) (a + b) 0 2 0
              (omega arith))
    ]
  ]

  pub wrap-sub_signed : wrap w (to_signed w a -ℤ to_signed w b) ≡ wrap w (pos a -ℤ pos b)
  wrap-sub_signed = elim (to_signed-cases w a) [
    | inl e ↦ elim (to_signed-cases w b) [
      | inl f ↦ rw (e, f)
      | inr f ↦
          rw (e, f)
            (wrap-cong w (a + suc (modulus w - 1 - b)) (0 + 0) (a + 0) (0 + b) 0 1 (omega arith))
    ]
    | inr e ↦ elim (to_signed-cases w b) [
      | inl f ↦
          rw (e, f)
            (wrap-cong w (0 + 0) (suc (modulus w - 1 - a) + b) (a + 0) (0 + b) 1 0 (omega arith))
      | inr f ↦
          rw (e, f)
            (wrap-cong w (0 + suc (modulus w - 1 - b)) (suc (modulus w - 1 - a) + 0) (a + 0) (0 + b)
              0 0 (omega arith))
    ]
  ]

  pub wrap-mul_signed : wrap w (to_signed w a *ℤ to_signed w b) ≡ wrap w (pos a *ℤ pos b)
  wrap-mul_signed = elim (to_signed-cases w a) [
    | inl e ↦ elim (to_signed-cases w b) [
      | inl f ↦ rw (e, f)
      | inr f ↦
          let y = suc (modulus w - 1 - b) in
          let whole : b + y ≡ modulus w = omega arith in
          rw (e, f)
            (wrap-cong w (a * 0 + 0 * y) (a * y + 0) (a * b + 0) (a * 0 + 0 * b) a 0
              (omega (arith, mul-add a b y, ap (λ n. a * n) whole, mul_comm (modulus w) a)))
    ]
    | inr e ↦ elim (to_signed-cases w b) [
      | inl f ↦ rw f (wrap-mul_pos w a b h)
      | inr f ↦
          let x = suc (modulus w - 1 - a) in
          let y = suc (modulus w - 1 - b) in
          let whole_a : a + x ≡ modulus w = omega arith in
          let whole_b : b + y ≡ modulus w = omega arith in
          rw (e, f)
            (wrap-cong w (0 + x * y) (0 * y + x * 0) (a * b + 0) (a * 0 + 0 * b) b x (
              omega (
                arith,
                add-mul a x b,
                ap (λ n. n * b) whole_a,
                mul-add x b y,
                ap (λ n. x * n) whole_b,
                mul_comm (modulus w) x,
              )))
    ]
  ]

  pub eqb_signed : eqb_ℤ (to_signed w a) (to_signed w b) ≡ eqb_ℤ (pos a) (pos b)
  unfolding to_signed
  eqb_signed = ground arith
