-- ===== src/Prelude/Texts.antt =====
-- Python's tests on `str`, by the native operations.
use Prim.Native.Nat.{ℕ}
use Prim.Native.Nat as Nat
use Prim.Native.String.{String, len, find}
use mathlib.Core.Bool.{Bool, true, false}
use mathlib.Core.Logic.{◌↔◌}
use mathlib.Core.Path.{◌≡◌, refl}
use text.Mathlib.Text.{◌==◌, is_le}
use text.Mathlib.TextEquality.{eq_iff}

-- `t in s`
abbrev pub contains : String → String → Bool
contains s t = is_le (Nat.compare (find s t) (len s))

unfoldable pub by_test : {P : Type 0} (b : Bool) → ((b ≡ true) ↔ P) → Dec P
by_test true h = yes (h.0 refl)
by_test false h = no (λ p. absurd (cc (h.1 p)))

unfoldable pub string_discrete : Discrete String
unfolding by_test
string_discrete s t = by_test (s == t) (eq_iff s t)
