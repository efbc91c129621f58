-- ===== src/Common/Text.antt =====
-- C's string literals: the bytes before the final zero.
use Prim.Native.Char.{code}
use Prim.Native.String.{String}
use mathlib.Core.List.{[], ◌∷◌}
use pc98imebridge.Common.Words.{Bytes}

abbrev pub codes : String → Bytes
codes String.[] = []
codes (String.◌∷◌ c text) = code c ∷ codes text
