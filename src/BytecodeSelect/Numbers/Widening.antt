-- ===== src/BytecodeSelect/Numbers/Widening.antt =====
-- The table of widenings in `cast` of src/bytecode_select.rs: the sizes of each.
use mathlib.Core.Path.{subst}
use skitter.Prelude.{
  ℕ, ◌≡◌, refl, ◌⊎◌, inl, inr, ◌&&◌, ◌==◌, if◌then◌else◌, arith, Bool-cases, ==_iff,
}
use skitter.Prelude.Run.{Run, done, done-eq}
use skitter.Vm.Words.{Bits, b8, b16, b32, b64, b128, size}
use skitter.BytecodeSelect.Numbers.{widening}

-- One row of the table of widenings.
row :
    {A : Type 0} (x y p q : ℕ) (a : A) (rest : Run A) {r : A}
    → (if x == p && y == q then done a else rest) ≡ done r
    → ((x ≡ p) × (y ≡ q) × (a ≡ r)) ⊎ (rest ≡ done r)
row x y p q a rest e = elim (Bool-cases (x == p)) [
  | inl h ↦ elim (Bool-cases (y == q)) [
    | inl k ↦ inl ((==_iff x p).0 h, (==_iff y q).0 k, done-eq (rw (h, k) at e))
    | inr k ↦ inr (rw (h, k) at e)
  ]
  | inr h ↦ inr (rw h at e)
]

pub record Widens (arg res : ℕ) (r : Bits × Bits) : Type 0 where
  pub from_size : arg ≡ size r.1
  pub to_size : res ≡ size r.0

hit :
    {arg res : ℕ} (w v : Bits) {r : Bits × Bits}
    → (arg ≡ size v) × (res ≡ size w) × ((w, v) ≡ r)
    → Widens arg res r
hit {arg} {res} w v (p, q, e) = subst (Widens arg res) e (record { from_size = p; to_size = q })

pub widening-Widens : (arg res : ℕ) (r : Bits × Bits) → widening arg res ≡ done r → Widens arg res r
unfolding widening
widening-Widens arg res r e = elim (row arg res 1 2 (b16, b8) _ e) [
  | inl h ↦ hit b16 b8 h
  | inr e ↦ elim (row arg res 2 4 (b32, b16) _ e) [
    | inl h ↦ hit b32 b16 h
    | inr e ↦ elim (row arg res 1 4 (b32, b8) _ e) [
      | inl h ↦ hit b32 b8 h
      | inr e ↦ elim (row arg res 4 8 (b64, b32) _ e) [
        | inl h ↦ hit b64 b32 h
        | inr e ↦ elim (row arg res 2 8 (b64, b16) _ e) [
          | inl h ↦ hit b64 b16 h
          | inr e ↦ elim (row arg res 1 8 (b64, b8) _ e) [
            | inl h ↦ hit b64 b8 h
            | inr e ↦ elim (row arg res 8 16 (b128, b64) _ e) [
              | inl h ↦ hit b128 b64 h
              | inr e ↦ elim (row arg res 4 16 (b128, b32) _ e) [
                | inl h ↦ hit b128 b32 h
                | inr e ↦ elim (row arg res 2 16 (b128, b16) _ e) [
                  | inl h ↦ hit b128 b16 h
                  | inr e ↦ elim (row arg res 1 16 (b128, b8) _ e) [
                    | inl h ↦ hit b128 b8 h
                    | inr e ↦ absurd (cc)
                  ]
                ]
              ]
            ]
          ]
        ]
      ]
    ]
  ]
]

pub size-injective : (v w : Bits) → size v ≡ size w → v ≡ w
size-injective b8 b8 e = refl
size-injective b8 b16 e = absurd (omega (arith, e))
size-injective b8 b32 e = absurd (omega (arith, e))
size-injective b8 b64 e = absurd (omega (arith, e))
size-injective b8 b128 e = absurd (omega (arith, e))
size-injective b16 b8 e = absurd (omega (arith, e))
size-injective b16 b16 e = refl
size-injective b16 b32 e = absurd (omega (arith, e))
size-injective b16 b64 e = absurd (omega (arith, e))
size-injective b16 b128 e = absurd (omega (arith, e))
size-injective b32 b8 e = absurd (omega (arith, e))
size-injective b32 b16 e = absurd (omega (arith, e))
size-injective b32 b32 e = refl
size-injective b32 b64 e = absurd (omega (arith, e))
size-injective b32 b128 e = absurd (omega (arith, e))
size-injective b64 b8 e = absurd (omega (arith, e))
size-injective b64 b16 e = absurd (omega (arith, e))
size-injective b64 b32 e = absurd (omega (arith, e))
size-injective b64 b64 e = refl
size-injective b64 b128 e = absurd (omega (arith, e))
size-injective b128 b8 e = absurd (omega (arith, e))
size-injective b128 b16 e = absurd (omega (arith, e))
size-injective b128 b32 e = absurd (omega (arith, e))
size-injective b128 b64 e = absurd (omega (arith, e))
size-injective b128 b128 e = refl
