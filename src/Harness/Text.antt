-- ===== src/Harness/Text.antt =====
-- chaos/harness.py: `[int(x) for x in plan.replace(" ", "").split(",") if x]`, with Python's `int` of
-- a text of ASCII characters; a text with other digits or spaces is left out.
use Prim.Native.Char.{code}
use reliable_ai_agents.Prelude.{
  ℤ, pos, negsuc, ℕ, zero, suc, ◌+◌, ◌-◌, ◌*◌, String, Bool, true, false, not, ◌&&◌, ◌||◌, Option,
  none, some, List, [], ◌∷◌, if◌then◌else◌, leb, ◌==◌, select,
}

unfoldable pub codes : String → List ℕ
codes String.[] = []
codes (String.◌∷◌ c s) = code c ∷ codes s

abbrev pub is_digit : ℕ → Bool
is_digit c = leb 48 c && leb c 57

-- What `int` strips.
abbrev pub is_space : ℕ → Bool
is_space c = c == 32 || (leb 9 c && leb c 13 || leb 28 c && leb c 31)

unfoldable pub all_spaces : List ℕ → Bool
all_spaces [] = true
all_spaces (c ∷ cs) = is_space c && all_spaces cs

-- Digits with single underscores between them; the flag says whether a digit came last.
unfoldable pub digits : ℕ → Bool → List ℕ → Option ℕ
unfolding all_spaces
digits sum last [] = if last then some sum else none
digits sum last (c ∷ cs) =
    let more = digits (sum * 10 + (c - 48)) true cs in
    let gap = digits sum false cs in
    if is_digit c
    then more
    else (if c == 95 && last then gap else (if last && all_spaces (c ∷ cs) then some sum else none))

abbrev pub negated : Option ℕ → Option ℤ
negated none = none
negated (some zero) = some (pos 0)
negated (some (suc n)) = some (negsuc n)

abbrev pub positive : Option ℕ → Option ℤ
positive none = none
positive (some n) = some (pos n)

-- `none` is the ValueError.
unfoldable pub int : List ℕ → Option ℤ
unfolding digits
int [] = none
int (c ∷ cs) =
    let stripped = int cs in
    if is_space c
    then stripped
    else (if c == 45
        then negated (digits 0 false cs)
        else (if c == 43 then positive (digits 0 false cs) else positive (digits 0 false (c ∷ cs))))

abbrev pub longer : ℕ → List (List ℕ) → List (List ℕ)
longer c [] = (c ∷ []) ∷ []
longer c (piece ∷ rest) = (c ∷ piece) ∷ rest

-- split(",")
unfoldable pub split : List ℕ → List (List ℕ)
split [] = [] ∷ []
split (c ∷ cs) = let rest = split cs in if c == 44 then [] ∷ rest else longer c rest

abbrev pub is_nonempty : List ℕ → Bool
is_nonempty [] = false
is_nonempty (c ∷ cs) = true

abbrev pub with_id : Option ℤ → Option (List ℤ) → Option (List ℤ)
with_id none ids = none
with_id (some id) none = none
with_id (some id) (some ids) = some (id ∷ ids)

unfoldable pub ints : List (List ℕ) → Option (List ℤ)
unfolding int
ints [] = some []
ints (piece ∷ rest) = with_id (int piece) (ints rest)

-- The ids of a plan that was typed.
unfoldable pub ids_of : String → Option (List ℤ)
unfolding codes split ints
ids_of text = ints (select is_nonempty (split (select (λ c. not (c == 32)) (codes text))))
