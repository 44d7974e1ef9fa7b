-- ===== src/BytecodeSelect/Numbers/Binary/Choice.antt =====
-- Which operation on integers `binary` of src/bytecode_select.rs chooses, by operator and type.
use mathlib.Core.Path.{subst}
use skitter.Prelude.{
  ℕ, ◌≡◌, refl, inl, inr, Bool, true, false, Option, none, some, ◌==◌, Bool-cases, ==_iff,
}
use skitter.Prelude.Run.{done-eq, Run, done, panicked, ◌>>◌, check, >>=-eq-done}
use skitter.Types.Kind.{IntSign, unsigned, Ty, int, bool, char, ptr}
use skitter.Vm.Words.{Bits, b8, b16, b32, b64, b128, size}
use skitter.Vm.Instr.{IntBinary, int_binary}
use skitter.BytecodeSelect.Copies.{by_size}
use skitter.BytecodeSelect.Numbers.{BinaryOp, Ctor3, int_op, bool_op, char_op, ptr_op, binary_by}

-- The sign of the integer that represents a value of the type, if one does.
abbrev pub int_sign : Ty → Option IntSign
int_sign (int w s) = some s
int_sign bool = some unsigned
int_sign char = some unsigned
int_sign (ptr t m) = some unsigned
int_sign _ = none

-- The bytes of the result: a `bool` for a comparison.
abbrev pub result_size : BinaryOp → Bits → ℕ
result_size BinaryOp.eq w = 1
result_size BinaryOp.not_eq w = 1
result_size BinaryOp.lt w = 1
result_size BinaryOp.gt w = 1
result_size BinaryOp.lt_eq w = 1
result_size BinaryOp.gt_eq w = 1
result_size _ w = size w

pub by_size-done :
    {A : Type 0} (n : ℕ) (f : Bits → A) (r : A)
    → by_size n f ≡ done r
    → (w : Bits) × (n ≡ size w) × (f w ≡ r)
unfolding by_size
by_size-done n f r e = elim (Bool-cases (n == 1)) [
  | inl h ↦ (b8, (==_iff n 1).0 h, done-eq (rw h at e))
  | inr h1 ↦ elim (Bool-cases (n == 2)) [
    | inl h ↦ (b16, (==_iff n 2).0 h, done-eq (rw (h1, h) at e))
    | inr h2 ↦ elim (Bool-cases (n == 4)) [
      | inl h ↦ (b32, (==_iff n 4).0 h, done-eq (rw (h1, h2, h) at e))
      | inr h4 ↦ elim (Bool-cases (n == 8)) [
        | inl h ↦ (b64, (==_iff n 8).0 h, done-eq (rw (h1, h2, h4, h) at e))
        | inr h8 ↦ elim (Bool-cases (n == 16)) [
          | inl h ↦ (b128, (==_iff n 16).0 h, done-eq (rw (h1, h2, h4, h8, h) at e))
          | inr h ↦ absurd (not_done (rw (h1, h2, h4, h8, h) at e))
        ]
      ]
    ]
  ]
]
  where
    not_done : {A : Type 0} {a : A} → panicked ≡ done a → ⊥
    not_done e = cc

-- The choice made for an operator on integers of a sign, at the width of the size.
pub record Chooses (op : BinaryOp) (s : IntSign) (n : ℕ) (r : Ctor3 × Bool) : Type 0 where
  pub width : Bits
  pub fits : n ≡ size width
  pub chosen : (λ out lhs rhs. int_binary width (int_op op s).0 out lhs rhs, (int_op op s).1) ≡ r

bool_op-int_op :
    (op : BinaryOp) (o : IntBinary)
    → bool_op op ≡ done o
    → ((int_op op unsigned).0 ≡ o) × ((int_op op unsigned).1 ≡ false)
unfolding bool_op int_op
bool_op-int_op BinaryOp.eq o e = (cc, refl)
bool_op-int_op BinaryOp.not_eq o e = (cc, refl)
bool_op-int_op BinaryOp.bit_or o e = (cc, refl)
bool_op-int_op BinaryOp.bit_and o e = (cc, refl)
bool_op-int_op BinaryOp.bit_xor o e = (cc, refl)
bool_op-int_op _ o e = absurd (cc)

char_op-int_op :
    (op : BinaryOp) (o : IntBinary × Bool) → char_op op ≡ done o → int_op op unsigned ≡ o
unfolding char_op int_op
char_op-int_op BinaryOp.eq o e = cc
char_op-int_op BinaryOp.not_eq o e = cc
char_op-int_op BinaryOp.lt o e = cc
char_op-int_op BinaryOp.gt o e = cc
char_op-int_op BinaryOp.lt_eq o e = cc
char_op-int_op BinaryOp.gt_eq o e = cc
char_op-int_op _ o e = absurd (cc)

ptr_op-int_op : (op : BinaryOp) (o : IntBinary × Bool) → ptr_op op ≡ done o → int_op op unsigned ≡ o
unfolding ptr_op int_op
ptr_op-int_op BinaryOp.eq o e = cc
ptr_op-int_op BinaryOp.gt_eq o e = cc
ptr_op-int_op _ o e = absurd (cc)

checked :
    {A : Type 0} (b : Bool) (m : Run A) (r : A)
    → (check b >> m) ≡ done r
    → (b ≡ true) × (m ≡ done r)
checked true m r e = (refl, e)
checked false m r e = absurd (cc)

pub binary_by-Chooses :
    (op : BinaryOp) (ty : Ty) (s : IntSign) (n : ℕ) (r : Ctor3 × Bool)
    → int_sign ty ≡ some s
    → binary_by op ty n ≡ done r
    → Chooses op s n r
unfolding binary_by
binary_by-Chooses op (int v t) s n r h e =
    let (w, fits, chosen) =
      by_size-done n
        (λ b. (λ out lhs rhs. int_binary b (int_op op t).0 out lhs rhs, (int_op op t).1)) r e in
    let same : t ≡ s = cc in
    subst (λ u. Chooses op u n r) same (record { width = w; fits = fits; chosen = chosen })
binary_by-Chooses op bool s n r h e =
    let (o, p, q) = >>=-eq-done (bool_op op) _ e in
    let (c, d) = checked (n == 1) _ r q in
    let (same, straight) = bool_op-int_op op o p in
    let sign : unsigned ≡ s = cc in
    subst (λ u. Chooses op u n r) sign
      (record { width = b8; fits = (==_iff n 1).0 c; chosen = rw (same, straight) (done-eq d) })
binary_by-Chooses op char s n r h e =
    let (o, p, q) = >>=-eq-done (char_op op) _ e in
    let (c, d) = checked (n == 4) _ r q in
    let sign : unsigned ≡ s = cc in
    subst (λ u. Chooses op u n r) sign
      (record {
        width = b32;
        fits = (==_iff n 4).0 c;
        chosen = rw (char_op-int_op op o p) (done-eq d);
      })
binary_by-Chooses op (ptr t m) s n r h e =
    let (o, p, q) = >>=-eq-done (ptr_op op) _ e in
    let (c, d) = checked (n == 8) _ r q in
    let eight : n ≡ 8 = (==_iff n 8).0 c in
    let sign : unsigned ≡ s = cc in
    subst (λ u. Chooses op u n r) sign
      (record {
        width = b64;
        fits = eight;
        chosen = rw (ptr_op-int_op op o p) (done-eq (rw eight at d));
      })
binary_by-Chooses op _ s n r h e = absurd (cc)
