-- ===== src/Grep/Tests.antt =====
-- Runs of the matcher of user/grep.c, and its theorem at a concrete input.
use cs_3224_operating_system.Base.{ℕ, ◌≡◌, refl, ◌↔◌, true, false, List, [], ◌∷◌}
use cs_3224_operating_system.Grep.{match}
use cs_3224_operating_system.Grep.Search.{Matches, match-Matches}

-- "ab*c$"
abbrev pattern_text : List ℕ
pattern_text = b'a' ∷ b'b' ∷ b'*' ∷ b'c' ∷ b'$' ∷ []

abbrev good : List ℕ
good = b'x' ∷ b'a' ∷ b'b' ∷ b'b' ∷ b'c' ∷ []

matches : match pattern_text good ≡ true
unfolding match
matches = refl

differs : match pattern_text (b'a' ∷ b'c' ∷ b'd' ∷ []) ≡ false
unfolding match
differs = refl

match-Matches_example : (match pattern_text good ≡ true) ↔ Matches pattern_text good
match-Matches_example = match-Matches pattern_text good
