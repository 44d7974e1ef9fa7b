-- ===== src/Drops/Dispatch.antt =====
-- The glue of an enum as a whole: the box, the drop function, and the fields of the variant that the
-- value is of. It is `DropGlue::new` of src/types/drop.rs, and what build.rs does with the code.
use skitter.Prelude.{ℕ, Option, none, some, List, [], ◌∷◌, ◌++◌}
use skitter.Types.Items.{Items}
use skitter.Drops.Glue.{
  GlueInstr, load_disc, Cell, pointer, unset, Dropped, Calls, boxed_code, drop_fn_code, glue,
}

-- The calls before those for the fields: for what is in a box, and of the drop function.
unfoldable pub start_calls : Dropped → Option ℕ → Option ℕ → Calls
start_calls v none none = []
start_calls v none (some drop_fn) = (drop_fn, v.self) ∷ []
start_calls v (some glue) none = (glue, v.boxed) ∷ []
start_calls v (some glue) (some drop_fn) = (glue, v.boxed) ∷ (drop_fn, v.self) ∷ []

abbrev start_cell : Dropped → Option ℕ → Cell
start_cell v none = unset
start_cell v (some glue) = pointer v.boxed

abbrev start_code : Option ℕ → Option ℕ → List GlueInstr
start_code boxed_glue drop_fn = (boxed_code boxed_glue ++ drop_fn_code drop_fn) ++ load_disc ∷ []
