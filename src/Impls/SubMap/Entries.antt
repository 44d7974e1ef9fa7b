-- ===== src/Impls/SubMap/Entries.antt =====
-- `set_param` and `set_param_const` of src/impls.rs: filling in a parameter moves the substitution up,
-- to one with that entry, and works whenever there is one above that has it.
use skitter.Prelude.{ℕ, ◌≡◌, refl, ap, ◌∙◌, Bool, true, false, Option, none, some}
use mathlib.Core.Path.{subst}
use mathlib.Core.Logic.{ite}
use skitter.Prelude.Run.{done, panicked}
use skitter.Types.Kind.{ConstGeneric, unknown, Ty, Sub, type, lifetime, const, SubList, Ty-discrete}
use skitter.Types.Subs.{get_sub}
use skitter.Impls.SubMap.{
  Matched, ConstGeneric-discrete, set_sub, set_entry, set_param, set_entry_const, set_param_const,
}
use skitter.Impls.SubMap.Below.{
  Refines, Below, Below-refl, get_sub-set_sub, Below-set_sub, set_sub-Below, Below-entry,
}

-- The substitution moves up to one with an entry.
abbrev pub Fills : SubList → SubList → ℕ → Sub → Type 0
Fills m m' n s = Below m m' × (get_sub m' n ≡ some s)

-- It moves, and stays below a given one.
abbrev pub Stays : Matched → SubList → Type 0
Stays r upper = (m' : SubList) × (r ≡ done (true, m')) × Below m' upper

pub left_eq :
    {b : Bool} {m m' : SubList} → ◌≡◌ {A = Matched} (done (b, m)) (done (true, m')) → m ≡ m'
left_eq e = cc

set_entry-Fills :
    (m : SubList) (n : ℕ) (val : Ty) (o : Option Sub) {m' : SubList}
    → get_sub m n ≡ o
    → set_entry m n val o ≡ done (true, m')
    → Fills m m' n (type val)
unfolding set_entry
set_entry-Fills m n val none g h = cc
set_entry-Fills m n val (some lifetime) g h = cc
set_entry-Fills m n val (some (const t c)) g h = cc
set_entry-Fills m n val (some (type cur)) g h = by (Ty-discrete cur val) (Ty-discrete cur unknown) h
  where
    by :
        (d : Dec (cur ≡ val)) (u : Dec (cur ≡ unknown)) {m' : SubList}
        → ite {C = Matched} d
            (done (true, m))
            (ite u (done (true, set_sub m n (type val))) (done (false, m)))
          ≡ done (true, m')
        → Fills m m' n (type val)
    by (yes e) u h =
        subst (λ l. Fills m l n (type val)) (left_eq h)
          (Below-refl m, (g ∙ ap (λ t. some (type t)) e))
    by (no d) (yes e) h =
        subst (λ l. Fills m l n (type val)) (left_eq h)
          (
            Below-set_sub m n (type cur) (type val) g (Refines.new_type val (ap type e) refl),
            get_sub-set_sub m n (type cur) (type val) g,
          )
    by (no d) (no e) h = cc

pub set_param-Fills :
    (n : ℕ) (val : Ty) (m : SubList) {m' : SubList}
    → set_param n val m ≡ done (true, m')
    → Fills m m' n (type val)
unfolding set_param
set_param-Fills n val m h = set_entry-Fills m n val (get_sub m n) refl h

set_entry-Stays :
    (m upper : SubList) (n : ℕ) (val : Ty) (s : Sub)
    → get_sub m n ≡ some s
    → Refines s (type val)
    → Below m upper
    → get_sub upper n ≡ some (type val)
    → Stays (set_entry m n val (some s)) upper
unfolding set_entry
set_entry-Stays m upper n val lifetime g (Refines.same e) b f = cc
set_entry-Stays m upper n val lifetime g (Refines.new_type t e q) b f = cc
set_entry-Stays m upper n val s g (Refines.new_const t c e q) b f = cc
set_entry-Stays m upper n val (const u d) g (Refines.same e) b f = cc
set_entry-Stays m upper n val (const u d) g (Refines.new_type t e q) b f = cc
set_entry-Stays m upper n val (type cur) g (Refines.same e) b f =
    by (Ty-discrete cur val) (Ty-discrete cur unknown)
  where
    equal : cur ≡ val
    equal = cc

    by :
        (d : Dec (cur ≡ val)) (u : Dec (cur ≡ unknown))
        → Stays
            (ite d (done (true, m)) (ite u (done (true, set_sub m n (type val))) (done (false, m))))
            upper
    by (yes d) u = (m, refl, b)
    by (no d) u = absurd (d equal)
set_entry-Stays m upper n val (type cur) g (Refines.new_type t e q) b f =
    by (Ty-discrete cur val) (Ty-discrete cur unknown)
  where
    fresh : cur ≡ unknown
    fresh = cc

    by :
        (d : Dec (cur ≡ val)) (u : Dec (cur ≡ unknown))
        → Stays
            (ite d (done (true, m)) (ite u (done (true, set_sub m n (type val))) (done (false, m))))
            upper
    by (yes d) u = (m, refl, b)
    by (no d) (yes u) = (set_sub m n (type val), refl, set_sub-Below m upper n (type val) b f)
    by (no d) (no u) = absurd (u fresh)

pub set_param-Stays :
    (n : ℕ) (val : Ty) (m upper : SubList)
    → Below m upper
    → get_sub upper n ≡ some (type val)
    → Stays (set_param n val m) upper
unfolding set_param
set_param-Stays n val m upper b f =
    let (s, g, r) = Below-entry m upper n (type val) b f in
    rw g (set_entry-Stays m upper n val s g r b f)

set_entry_const-Fills :
    (m : SubList) (n : ℕ) (val : ConstGeneric) (ty : Ty) (o : Option Sub) {m' : SubList}
    → get_sub m n ≡ o
    → set_entry_const m n val ty o ≡ done (true, m')
    → Fills m m' n (const ty val)
unfolding set_entry_const
set_entry_const-Fills m n val ty none g h = cc
set_entry_const-Fills m n val ty (some lifetime) g h = cc
set_entry_const-Fills m n val ty (some (type t)) g h = cc
set_entry_const-Fills m n val ty (some (const cur_ty cur)) g h =
    by (ConstGeneric-discrete cur val) (Ty-discrete cur_ty ty) (ConstGeneric-discrete cur unknown)
      (Ty-discrete cur_ty unknown) h
  where
    fill :
        (u : Dec (cur ≡ unknown)) (v : Dec (cur_ty ≡ unknown)) {m' : SubList}
        → ite {C = Matched} u (ite v (done (true, set_sub m n (const ty val))) panicked) panicked
          ≡ done (true, m')
        → Fills m m' n (const ty val)
    fill (yes u) (yes v) h =
        let old : const cur_ty cur ≡ const unknown unknown = cc in
        subst (λ l. Fills m l n (const ty val)) (left_eq h)
          (
            Below-set_sub m n (const cur_ty cur) (const ty val) g
                (Refines.new_const ty val old refl),
            get_sub-set_sub m n (const cur_ty cur) (const ty val) g,
          )
    fill (yes u) (no v) h = cc
    fill (no u) v h = cc

    by :
        (d : Dec (cur ≡ val)) (f : Dec (cur_ty ≡ ty)) (u : Dec (cur ≡ unknown))
        (v : Dec (cur_ty ≡ unknown)) {m' : SubList}
        → (let rest = ite u (ite v (done (true, set_sub m n (const ty val))) panicked) panicked in
            ite {C = Matched} d (ite f (done (true, m)) rest) rest)
          ≡ done (true, m')
        → Fills m m' n (const ty val)
    by (yes d) (yes f) u v h =
        let entry : const cur_ty cur ≡ const ty val = cc in
        subst (λ l. Fills m l n (const ty val)) (left_eq h)
          (Below-refl m, (g ∙ ap (λ s. some s) entry))
    by (yes d) (no f) u v h = fill u v h
    by (no d) f u v h = fill u v h

pub set_param_const-Fills :
    (n : ℕ) (val : ConstGeneric) (ty : Ty) (m : SubList) {m' : SubList}
    → set_param_const n val ty m ≡ done (true, m')
    → Fills m m' n (const ty val)
unfolding set_param_const
set_param_const-Fills n val ty m h = set_entry_const-Fills m n val ty (get_sub m n) refl h

set_entry_const-Stays :
    (m upper : SubList) (n : ℕ) (val : ConstGeneric) (ty : Ty) (s : Sub)
    → get_sub m n ≡ some s
    → Refines s (const ty val)
    → Below m upper
    → get_sub upper n ≡ some (const ty val)
    → Stays (set_entry_const m n val ty (some s)) upper
unfolding set_entry_const
set_entry_const-Stays m upper n val ty lifetime g (Refines.same e) b f = cc
set_entry_const-Stays m upper n val ty lifetime g (Refines.new_const t c e q) b f = cc
set_entry_const-Stays m upper n val ty s g (Refines.new_type t e q) b f = cc
set_entry_const-Stays m upper n val ty (type u) g (Refines.same e) b f = cc
set_entry_const-Stays m upper n val ty (type u) g (Refines.new_const t c e q) b f = cc
set_entry_const-Stays m upper n val ty (const cur_ty cur) g (Refines.same e) b f =
    by _ (ConstGeneric-discrete cur val) (Ty-discrete cur_ty ty)
  where
    equal : cur ≡ val
    equal = cc

    equal_ty : cur_ty ≡ ty
    equal_ty = cc

    by :
        (rest : Matched) (d : Dec (cur ≡ val)) (t : Dec (cur_ty ≡ ty))
        → Stays (ite d (ite t (done (true, m)) rest) rest) upper
    by rest (yes d) (yes t) = (m, refl, b)
    by rest (yes d) (no t) = absurd (t equal_ty)
    by rest (no d) t = absurd (d equal)
set_entry_const-Stays m upper n val ty (const cur_ty cur) g (Refines.new_const t c e q) b f =
    by (ConstGeneric-discrete cur val) (Ty-discrete cur_ty ty) (ConstGeneric-discrete cur unknown)
      (Ty-discrete cur_ty unknown)
  where
    fresh : cur ≡ unknown
    fresh = cc

    fresh_ty : cur_ty ≡ unknown
    fresh_ty = cc

    fill :
        (u : Dec (cur ≡ unknown)) (v : Dec (cur_ty ≡ unknown))
        → Stays (ite u (ite v (done (true, set_sub m n (const ty val))) panicked) panicked) upper
    fill (yes u) (yes v) =
        (set_sub m n (const ty val), refl, set_sub-Below m upper n (const ty val) b f)
    fill (yes u) (no v) = absurd (v fresh_ty)
    fill (no u) v = absurd (u fresh)

    by :
        (d : Dec (cur ≡ val)) (w : Dec (cur_ty ≡ ty)) (u : Dec (cur ≡ unknown))
        (v : Dec (cur_ty ≡ unknown))
        → Stays
            (let rest = ite u (ite v (done (true, set_sub m n (const ty val))) panicked) panicked in
              ite d (ite w (done (true, m)) rest) rest)
            upper
    by (yes d) (yes w) u v = (m, refl, b)
    by (yes d) (no w) u v = fill u v
    by (no d) w u v = fill u v

pub set_param_const-Stays :
    (n : ℕ) (val : ConstGeneric) (ty : Ty) (m upper : SubList)
    → Below m upper
    → get_sub upper n ≡ some (const ty val)
    → Stays (set_param_const n val ty m) upper
unfolding set_param_const
set_param_const-Stays n val ty m upper b f =
    let (s, g, r) = Below-entry m upper n (const ty val) b f in
    rw g (set_entry_const-Stays m upper n val ty s g r b f)
