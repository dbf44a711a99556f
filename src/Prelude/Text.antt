-- ===== src/Prelude/Text.antt =====
-- Texts: Python's `s == t`, `s.startswith(p)` and `s in {…}` on native strings.
pub use Prim.Native.String.{String}
pub use text.Mathlib.Text.{◌==◌ as str_eq, starts_with}
pub use text.Mathlib.TextEquality.{eq_iff}
use auto_sre.Prelude.{Bool, false, List, [], ◌∷◌, ◌||◌}

-- `s in names`, for a set or a tuple of texts.
abbrev pub is_one_of : String → List String → Bool
is_one_of s [] = false
is_one_of s (name ∷ names) = str_eq s name || is_one_of s names

-- `any(s.startswith(p) for p in prefixes)`, also `s.startswith(prefixes)` for a tuple.
abbrev pub starts_with_any : String → List String → Bool
starts_with_any s [] = false
starts_with_any s (p ∷ prefixes) = starts_with s p || starts_with_any s prefixes
