-- ===== src/Base/Text.antt =====
-- Equality of texts, decided.
use Prim.Native.String.{String}
use mathlib.Core.Path.{◌≡◌, refl}
use mathlib.Core.Bool.{Bool, true, false, false≢true}
use mathlib.Core.Path.{sym, ◌∙◌}
use text.Mathlib.Text.{◌==◌ as str_eq}
use text.Mathlib.TextEquality.{eq_iff}

decide_by : (s t : String) (b : Bool) → str_eq s t ≡ b → Dec (s ≡ t)
decide_by s t true e = yes ((eq_iff s t).0 e)
decide_by s t false e = no (λ p. false≢true (sym e ∙ (eq_iff s t).1 p))

unfoldable pub string_discrete : Discrete String
unfolding decide_by
string_discrete s t = decide_by s t (str_eq s t) refl
