-- ===== src/Base/Text.antt =====
-- Texts as the code points that Python's string methods walk over.
use Prim.Native.Char.{code}
use Prim.Native.String.{String}
use agentops_workflow_platfo.Base.Tests.{◌==◌, if◌then◌else◌}
use Prim.Native.Nat.{ℕ}
use mathlib.Core.Bool.{Bool, true, false, ◌&&◌, ◌||◌}
use mathlib.Core.List.{List, [], ◌∷◌, reverse}

abbrev pub codes : String → List ℕ
codes String.[] = []
codes (String.◌∷◌ c s) = code c ∷ codes s

-- text.startswith(prefix)
unfoldable pub starts : List ℕ → List ℕ → Bool
starts [] text = true
starts (p ∷ ps) [] = false
starts (p ∷ ps) (c ∷ cs) = p == c && starts ps cs

-- text.endswith(suffix)
unfoldable pub ends : List ℕ → List ℕ → Bool
unfolding starts
ends suffix text = starts (reverse suffix) (reverse text)

-- part in text
unfoldable pub has : List ℕ → List ℕ → Bool
unfolding starts
has part [] = starts part []
has part (c ∷ cs) = starts part (c ∷ cs) || has part cs

unfoldable pub same_text : List ℕ → List ℕ → Bool
same_text [] [] = true
same_text (a ∷ as') (b ∷ bs) = a == b && same_text as' bs
same_text _ _ = false

unfoldable strip : List ℕ → List ℕ
strip [] = []
strip (c ∷ cs) = if c == b'/' then strip cs else c ∷ cs

-- text.rstrip("/")
unfoldable pub rstrip_slash : List ℕ → List ℕ
unfolding strip
rstrip_slash text = reverse (strip (reverse text))

-- The text up to the next slash.
unfoldable pub segment : List ℕ → List ℕ
segment [] = []
segment (c ∷ cs) = if c == b'/' then [] else c ∷ segment cs
