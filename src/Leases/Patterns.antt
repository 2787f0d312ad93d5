-- ===== src/Leases/Patterns.antt =====
-- The pattern matches of the statements: ILIKE '%word%', and LIKE with a pattern from a caller.
use codeintel.Base.{
  Bool, true, false, ◌&&◌, ◌||◌, [], ◌∷◌, ◌++◌, map, ℕ, ◌+◌, leb, ◌==◌, is_empty, Text, contains,
  if◌then◌else◌,
}

abbrev pub lower_byte : ℕ → ℕ
lower_byte c = if leb b'A' c && leb c b'Z' then c + 32 else c

-- `text ILIKE '%' || word || '%'` for an ASCII word in lower case without `%`, `_` and `\`.
unfoldable pub ilike_contains : Text → Text → Bool
unfolding contains
ilike_contains text word = contains (map lower_byte text) word

-- A test holds of some tail.
abbrev pub some_tail : (Text → Bool) → Text → Bool
some_tail p [] = p []
some_tail p (c ∷ cs) = p (c ∷ cs) || some_tail p cs

-- A test holds behind one byte that passes another.
abbrev pub next_byte : (ℕ → Bool) → (Text → Bool) → Text → Bool
next_byte test p [] = false
next_byte test p (c ∷ cs) = test c && p cs

-- `text LIKE pattern` on ASCII, pattern first; the flag says that a backslash stands in front.
unfoldable pub like : Bool → Text → Text → Bool
like escaped [] text = is_empty text
like true (c ∷ pattern) text = next_byte (λ b. b == c) (like false pattern) text
like false (c ∷ pattern) text =
    let verbatim = like true pattern in
    let rest = like false pattern in
    if c == b'%'
    then some_tail rest text
    else if c == b'_'
    then next_byte (λ _. true) rest text
    else if c == 92
    then verbatim text
    else next_byte (λ b. b == c) rest text

-- `"leaseOwner" LIKE prefix || '%'`
unfoldable pub owner_like : Text → Text → Bool
unfolding like
owner_like owner prefix = like false (prefix ++ b'%' ∷ []) owner
