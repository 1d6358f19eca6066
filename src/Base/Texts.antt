-- ===== src/Base/Texts.antt =====
-- Go's `==` on strings.
use Prim.Native.String.{String}
use mathlib.Core.Path.{◌≡◌}
use mathlib.Core.Logic.{◌↔◌}
use mathlib.Core.Bool.{Bool, true}
use text.Mathlib.Text.{◌==◌}
use text.Mathlib.TextEquality.{eq_iff}

abbrev pub same_text : String → String → Bool
same_text s t = s == t

pub same_text_iff : (s t : String) → (same_text s t ≡ true) ↔ (s ≡ t)
same_text_iff s t = eq_iff s t
