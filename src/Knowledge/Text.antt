-- ===== src/Knowledge/Text.antt =====
-- The methods of `str` that the knowledge code calls.
use Prim.Native.Char.{code}
use Prim.Native.Nat.{◌/◌, ◌%◌}
use Prim.Native.String.{String, ◌++◌}
use ai_knowledge_hub.Base.{
  ℕ, zero, suc, Bool, true, false, ◌&&◌, List, [], ◌∷◌, is_space, ltb, if◌then◌else◌,
}

abbrev pub is_empty_text : String → Bool
is_empty_text String.[] = true
is_empty_text (String.◌∷◌ c s) = false

unfoldable pub lstrip : String → String
unfolding is_space
lstrip String.[] = ""
lstrip (String.◌∷◌ c s) = let rest = lstrip s in if is_space (code c) then rest else String.◌∷◌ c s

unfoldable pub rstrip : String → String
unfolding is_space
rstrip String.[] = ""
rstrip (String.◌∷◌ c s) =
    let rest = rstrip s in if is_empty_text rest && is_space (code c) then "" else String.◌∷◌ c rest

unfoldable pub strip : String → String
unfolding lstrip rstrip
strip s = rstrip (lstrip s)

-- `separator.join(texts)`
unfoldable pub join : String → List String → String
join separator [] = ""
join separator (s ∷ []) = s
join separator (s ∷ t ∷ texts) = s ++ separator ++ join separator (t ∷ texts)

abbrev digit_in : List String → ℕ → String
digit_in [] n = ""
digit_in (d ∷ digits) zero = d
digit_in (d ∷ digits) (suc n) = digit_in digits n

abbrev digit : ℕ → String
digit = digit_in ("0" ∷ "1" ∷ "2" ∷ "3" ∷ "4" ∷ "5" ∷ "6" ∷ "7" ∷ "8" ∷ "9" ∷ [])

-- `str(n)`: a number below 10 ^ fuel has at most `fuel` digits, and `n` is below 10 ^ (n + 1).
decimal_on : ℕ → ℕ → String
decimal_on zero n = ""
decimal_on (suc fuel) n =
    let rest = decimal_on fuel (n / 10) in if ltb n 10 then digit n else rest ++ digit (n % 10)

unfoldable pub decimal : ℕ → String
unfolding decimal_on
decimal n = decimal_on (suc n) n

-- `len(text)`, `text[:n]` and `text[n:]`.
abbrev pub text_length : String → ℕ
text_length String.[] = 0
text_length (String.◌∷◌ c s) = suc (text_length s)

unfoldable pub take : ℕ → String → String
take zero s = ""
take (suc n) String.[] = ""
take (suc n) (String.◌∷◌ c s) = String.◌∷◌ c (take n s)

unfoldable pub drop : ℕ → String → String
drop zero s = s
drop (suc n) String.[] = ""
drop (suc n) (String.◌∷◌ c s) = drop n s
