-- ===== src/Config/Targets.antt =====
-- The loops over `cfg.Targets` in internal/app/config.go: the search of Get, the replacement in
-- Upsert and the removal in Delete. Each stops at the first target with the id.
pub mod Laws
use mcmon.Prelude.{
  String, Bool, true, false, ◌&&◌, not, Option, none, some, List, [], ◌∷◌, ◌++◌, str_eq, any,
  if◌then◌else◌,
}
use mcmon.Config.Target.{Target}
use mathlib.Core.Option

-- The loop of Get.
unfoldable pub find_target : String → List Target → Option Target
find_target id [] = none
find_target id (t ∷ ts) = if str_eq t.id id then some t else find_target id ts

-- The loop of Upsert, and its append where no target was replaced.
unfoldable pub put_target : Target → List Target → List Target
put_target t [] = t ∷ []
put_target t (existing ∷ ts) =
    if str_eq existing.id t.id then t ∷ ts else existing ∷ put_target t ts

-- The loop of Delete: `none` where it finds no target.
unfoldable pub cut_target : String → List Target → Option (List Target)
cut_target id [] = none
cut_target id (t ∷ ts) =
    if str_eq t.id id then some ts else Option.map (λ rest. t ∷ rest) (cut_target id ts)
