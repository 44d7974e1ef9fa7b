-- ===== src/Vm/DropFlags/Locals.antt =====
-- `local_init`, `local_move`, `local_drop` and `local_drop_init` of src/vm/vm.rs keep a set of locals.
use Prim.Native.Nat.{bit_or, bit_xor}
use mathlib.Core.Path.{subst}
use skitter.Prelude.{
  ℕ, zero, suc, ◌%◌, ◌<◌, ◌≡◌, ◌≢◌, refl, ap, sym, ◌∙◌, inl, inr, Bool, true, false, not, Option,
  none, some, List, [], ◌∷◌, All, ◌==◌, if◌then◌else◌, get_elem?, set, length, length-set,
  get_elem?-set_self, get_elem?-set_ne, arith, Bool-cases, ==_iff,
}
use skitter.Vm.DropFlags.{
  mask, is_set, at_byte, local_init, local_move, local_drop, local_drop_init,
}
use skitter.Vm.DropFlags.Bit.{bit, is_set-bit, bit-or, bit-xor, bit_or-lt, bit_xor-lt}

abbrev pub or_zero : Option ℕ → ℕ
or_zero (some b) = b
or_zero none = 0

abbrev pub byte_at : List ℕ → ℕ → ℕ
byte_at flags i = or_zero (get_elem? flags i)

-- Local `n` of the frame is alive.
unfoldable pub alive : ℕ → List ℕ → ℕ → Bool
alive base flags n = bit (byte_at flags (at_byte base n)) (n % 8)

abbrev pub AreBytes : List ℕ → Type 0
AreBytes = All (λ b. b < 256)

-- `flags'` has local `n` alive or not as `v` says, and all other locals as `flags`.
pub record Puts (base n : ℕ) (v : Bool) (flags flags' : List ℕ) : Type 0 where
  pub kept : length flags' ≡ length flags
  pub bytes : AreBytes flags'
  pub sets : (i : ℕ) → alive base flags' i ≡ (if i == n then v else alive base flags i)

-- What became of local `n`: its new state, or a panic; and whether its glue ran.
abbrev pub Matches : ℕ → ℕ → List ℕ → Option (List ℕ) → Option Bool → Type 0
Matches base n flags (some flags') (some v) = Puts base n v flags flags'
Matches base n flags none none = Unit
Matches base n flags _ _ = ⊥

abbrev pub Ran : ℕ → ℕ → List ℕ → Option (Bool × List ℕ) → Bool → Bool → Type 0
Ran base n flags (some (ran, flags')) expected v = (ran ≡ expected) × Puts base n v flags flags'
Ran base n flags none expected v = ⊥

set-AreBytes : (flags : List ℕ) (i b : ℕ) → AreBytes flags → b < 256 → AreBytes (set flags i b)
set-AreBytes [] i b h k = tt
set-AreBytes (f ∷ flags) zero b (h, hs) k = (k, hs)
set-AreBytes (f ∷ flags) (suc i) b (h, hs) k = (h, set-AreBytes flags i b hs k)

found :
    (flags : List ℕ) (i : ℕ)
    → AreBytes flags
    → i < length flags
    → (get_elem? flags i ≡ some (byte_at flags i)) × (byte_at flags i < 256)
found [] i h k = absurd (omega arith)
found (f ∷ flags) zero (h, hs) k = (refl, h)
found (f ∷ flags) (suc i) (h, hs) k = found flags i hs (omega arith)

byte_at-set_self : (flags : List ℕ) (a b : ℕ) → a < length flags → byte_at (set flags a b) a ≡ b
byte_at-set_self flags a b h = ap or_zero (get_elem?-set_self flags a b h)

byte_at-set_ne : (flags : List ℕ) (a c b : ℕ) → a ≢ c → byte_at (set flags a b) c ≡ byte_at flags c
byte_at-set_ne flags a c b h = ap or_zero (get_elem?-set_ne flags b h)

same_byte : (base i n : ℕ) → at_byte base i ≡ at_byte base n → (i % 8 == n % 8) ≡ (i == n)
same_byte base i n h = ground arith

other_byte :
    (base i n : ℕ)
    → (at_byte base i == at_byte base n) ≡ false
    → ((i == n) ≡ false) × (at_byte base n ≢ at_byte base i)
other_byte base i n h = (ground arith, λ e. ground arith)

-- A byte in which only the bit of local `n` became `v`.
set-Puts :
    (base n : ℕ) (v : Bool) (flags : List ℕ) (b : ℕ)
    → AreBytes flags
    → at_byte base n < length flags
    → b < 256
    → ((j : ℕ)
        → j < 8
        → bit b j ≡ (if j == n % 8 then v else bit (byte_at flags (at_byte base n)) j))
    → Puts base n v flags (set flags (at_byte base n) b)
unfolding alive
set-Puts base n v flags b h k small bits = record {
  kept = length-set flags (at_byte base n) b;
  bytes = set-AreBytes flags (at_byte base n) b h small;
  sets = λ i. elim (Bool-cases (at_byte base i == at_byte base n)) [
    | inl e ↦
        let q = (==_iff (at_byte base i) (at_byte base n)).0 e in
        ap (λ a. bit (byte_at (set flags (at_byte base n) b) a) (i % 8)) q
        ∙ ap (λ c. bit c (i % 8)) (byte_at-set_self flags (at_byte base n) b k)
        ∙ bits (i % 8) (omega arith)
        ∙ ap (λ c. if c then v else bit (byte_at flags (at_byte base n)) (i % 8))
            (same_byte base i n q)
        ∙ ap (λ a. if i == n then v else bit (byte_at flags a) (i % 8)) (sym q)
    | inr e ↦
        let (d, ne) = other_byte base i n e in
        ap (λ c. bit c (i % 8)) (byte_at-set_ne flags (at_byte base n) (at_byte base i) b ne)
        ∙ ap (λ c. if c then v else bit (byte_at flags (at_byte base i)) (i % 8)) (sym d)
  ];
}

module _ (base n : ℕ) (flags : List ℕ) (h : AreBytes flags)
    (k : at_byte base n < length flags) where
  abbrev byte : ℕ
  byte = byte_at flags (at_byte base n)

  or-Puts : Puts base n true flags (set flags (at_byte base n) (bit_or byte (mask n)))
  or-Puts =
      let (e, small) = found flags (at_byte base n) h k in
      set-Puts base n true flags (bit_or byte (mask n)) h k (bit_or-lt byte n small)
        (λ j l. bit-or byte n j small l)

  xor_bit :
      (j : ℕ)
      → bit byte (n % 8) ≡ true
      → (if j == n % 8 then not (bit byte j) else bit byte j)
        ≡ (if j == n % 8 then false else bit byte j)
  xor_bit j e = elim (Bool-cases (j == n % 8)) [
    | inl d ↦
        let q : n % 8 ≡ j = sym ((==_iff j (n % 8)).0 d) in
        rw d (ap not (subst (λ t. bit byte t ≡ true) q e))
    | inr d ↦ rw d
  ]

  xor-Puts :
      bit byte (n % 8) ≡ true
      → Puts base n false flags (set flags (at_byte base n) (bit_xor byte (mask n)))
  xor-Puts e =
      let (f, small) = found flags (at_byte base n) h k in
      set-Puts base n false flags (bit_xor byte (mask n)) h k (bit_xor-lt byte n small)
        (λ j l. bit-xor byte n j small l ∙ xor_bit j e)

  alive-bit : alive base flags n ≡ bit byte (n % 8)
  unfolding alive
  alive-bit = refl

  -- The test of the byte of the local is the local's.
  is_set-alive : is_set byte n ≡ alive base flags n
  unfolding alive
  is_set-alive = is_set-bit byte n (found flags (at_byte base n) h k).1

  stays : (v : Bool) → alive base flags n ≡ v → Puts base n v flags flags
  stays v e = record { kept = refl; bytes = h; sets = λ i. unchanged i }
    where
      unchanged : (i : ℕ) → alive base flags i ≡ (if i == n then v else alive base flags i)
      unchanged i = elim (Bool-cases (i == n)) [
        | inl d ↦ rw d (ap (alive base flags) ((==_iff i n).0 d) ∙ e)
        | inr d ↦ rw d
      ]

  -- In a byte that is there, each operation does to the set of live locals what it should: `local_init`
  -- adds a dead local and panics on a live one, `local_move` removes a live one and panics on a dead
  -- one, `local_drop` removes the local and runs its glue if it was live, and `local_drop_init` adds
  -- it and runs the glue if it was live. No other local changes.
  pub flags-keep_set :
      Matches base n flags
        (local_init base n flags)
        (if alive base flags n then none else some true)
      × Matches base n flags
          (local_move base n flags)
          (if alive base flags n then some false else none)
      × Ran base n flags (local_drop base n flags) (alive base flags n) false
      × Ran base n flags (local_drop_init base n flags) (alive base flags n) true
  unfolding local_init local_move local_drop local_drop_init
  flags-keep_set =
      let e = (found flags (at_byte base n) h k).0 in
      elim (Bool-cases (alive base flags n)) [
        | inl d ↦
            let x = xor-Puts (sym alive-bit ∙ d) in
            rw (e, is_set-alive, d) (tt, x, (refl, x), (refl, stays true d))
        | inr d ↦ rw (e, is_set-alive, d) (or-Puts, tt, (refl, stays false d), (refl, or-Puts))
      ]
