-- ===== src/Grep.antt =====
-- homework-3-lottery-scheduling/user/grep.c: the matcher for ^ . * $. A string is the list of its
-- bytes before the NUL.
pub mod Language
pub mod Search
mod Tests
use cs_3224_operating_system.Base.{
  ℕ, Bool, true, false, ◌&&◌, ◌||◌, List, [], ◌∷◌, if◌then◌else◌, ◌==◌,
}

-- `matchstar`, with its calls of `matchhere` on the rest of the pattern as the first argument.
unfoldable pub matchstar : (List ℕ → Bool) → ℕ → List ℕ → Bool
matchstar here c [] = here []
matchstar here c (t ∷ ts) =
    let more = matchstar here c ts in
    if here (t ∷ ts) then true else if (t == c) || (c == b'.') then more else false

unfoldable pub matchhere : List ℕ → List ℕ → Bool
unfolding matchstar
matchhere [] text = true
matchhere (c ∷ []) [] = c == b'$'
matchhere (c ∷ []) (t ∷ ts) =
    if c == b'$' then false else if (c == b'.') || (c == t) then matchhere [] ts else false
matchhere (c ∷ (d ∷ re)) [] =
    let star = matchstar (matchhere re) c [] in if d == b'*' then star else false
matchhere (c ∷ (d ∷ re)) (t ∷ ts) =
    let star = matchstar (matchhere re) c (t ∷ ts) in
    let rest = matchhere (d ∷ re) ts in
    if d == b'*' then star else if (c == b'.') || (c == t) then rest else false

-- The loop of `match`.
unfoldable pub search : (List ℕ → Bool) → List ℕ → Bool
search here [] = here []
search here (t ∷ ts) = let later = search here ts in if here (t ∷ ts) then true else later

unfoldable pub match : List ℕ → List ℕ → Bool
unfolding matchhere search
match [] text = search (matchhere []) text
match (c ∷ re) text =
    let anchored = matchhere re text in
    let anywhere = search (matchhere (c ∷ re)) text in if c == b'^' then anchored else anywhere
