-- ===== src/Impls/SubMap.antt =====
-- src/impls.rs: `SubMap`, the substitution that matching fills in, and `SubList::from_summary` of
-- src/types/subs.rs, from which it starts.
pub mod Below
pub mod Entries
use skitter.Prelude.{ℕ, zero, suc, Bool, true, false, Option, none, some}
use mathlib.Core.Logic.{ite}
use native.Mathlib.Decide.{ℕ_discrete}
use skitter.Prelude.Run.{Run, done, panicked}
use skitter.Types.Kind.{
  ConstGeneric, unknown, Ty, Sub, type, lifetime, const, SubList, empty, more, Ty-discrete,
}
use skitter.Types.Subs.{get_sub}

unfoldable pub ConstGeneric-discrete : Discrete ConstGeneric
ConstGeneric-discrete = hlevel ℕ_discrete

pub record GenericCounts : Type 0 where
  pub lifetimes : ℕ
  pub types : ℕ
  pub consts : ℕ

unfoldable pub repeat_sub : ℕ → Sub → SubList → SubList
repeat_sub zero s l = l
repeat_sub (suc n) s l = more s (repeat_sub n s l)

unfoldable pub from_summary : GenericCounts → SubList
from_summary summary = repeat_sub summary.lifetimes lifetime (
    repeat_sub summary.types (type unknown)
      (repeat_sub summary.consts (const unknown unknown) empty))

-- The write through `&mut self.result_subs.list[n]`.
unfoldable pub set_sub : SubList → ℕ → Sub → SubList
set_sub empty n s = empty
set_sub (more r l) zero s = more s l
set_sub (more r l) (suc n) s = more r (set_sub l n s)

-- An answer, with the substitution that is left.
abbrev pub Matched : Type 0
Matched = Run (Bool × SubList)

unfoldable pub set_entry : SubList → ℕ → Ty → Option Sub → Matched
unfolding Ty-discrete
set_entry m n val none = panicked
set_entry m n val (some lifetime) = panicked
set_entry m n val (some (const t c)) = panicked
set_entry m n val (some (type current_val)) =
    ite (Ty-discrete current_val val) (done (true, m)) (
      ite (Ty-discrete current_val unknown) (done (true, set_sub m n (type val))) (done (false, m)))

unfoldable pub set_param : ℕ → Ty → SubList → Matched
set_param n val m = set_entry m n val (get_sub m n)

unfoldable pub set_entry_const : SubList → ℕ → ConstGeneric → Ty → Option Sub → Matched
unfolding Ty-discrete ConstGeneric-discrete
set_entry_const m n val ty none = panicked
set_entry_const m n val ty (some lifetime) = panicked
set_entry_const m n val ty (some (type t)) = panicked
set_entry_const m n val ty (some (const current_ty current_val)) =
    let fill =
      ite (ConstGeneric-discrete current_val unknown)
        (ite (Ty-discrete current_ty unknown) (done (true, set_sub m n (const ty val))) panicked)
        panicked in
    ite (ConstGeneric-discrete current_val val)
      (ite (Ty-discrete current_ty ty) (done (true, m)) fill) fill

unfoldable pub set_param_const : ℕ → ConstGeneric → Ty → SubList → Matched
set_param_const n val ty m = set_entry_const m n val ty (get_sub m n)
