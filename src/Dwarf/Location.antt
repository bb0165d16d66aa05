-- ===== src/Dwarf/Location.antt =====
-- `get_location_value` of global_variable.py, formal_parameter.py and local_variable.py in
-- py_etiss_xvalid/entity/dwarf/: the regular expressions on a location's text, which
-- pyelftools describes.
use etiss_xvalid.Base.{
  ℕ, ◌+◌, ◌-◌, ◌*◌, Bool, ◌&&◌, ◌||◌, Option, none, some, [], ◌∷◌, leb, ◌==◌, if◌then◌else◌,
}
use etiss_xvalid.Base.Text.{Text, codes}
use etiss_xvalid.Base.Int.{ℤ, pos, negate}
use etiss_xvalid.Base.Result.{Result, ok, err, attribute_error, type_error}

-- what follows a prefix
unfoldable pub strip_prefix : Text → Text → Option Text
strip_prefix [] s = some s
strip_prefix (c ∷ p) [] = none
strip_prefix (c ∷ p) (d ∷ s) = if c == d then strip_prefix p s else none

-- `\s`, of which Python takes every white space of Unicode
abbrev pub is_space : ℕ → Bool
is_space c =
    leb 9 c && leb c 13
    || leb 28 c && leb c 32
    || c == 133
    || c == 160
    || c == 5760
    || leb 8192 c && leb c 8202
    || c == 8232
    || c == 8233
    || c == 8239
    || c == 8287
    || c == 12288

unfoldable pub skip_spaces : Text → Text
skip_spaces [] = []
skip_spaces (c ∷ s) = let rest = skip_spaces s in if is_space c then rest else c ∷ s

abbrev pub is_digit : ℕ → Bool
is_digit c = leb 48 c && leb c 57

-- `[0-9a-fA-F]`
abbrev pub is_hex_digit : ℕ → Bool
is_hex_digit c = is_digit c || leb 97 c && leb c 102 || leb 65 c && leb c 70

-- the longest run of characters that pass a test, and what follows it
unfoldable pub span : (ℕ → Bool) → Text → Text × Text
span p [] = ([], [])
span p (c ∷ s) = let (run, rest) = span p s in if p c then (c ∷ run, rest) else ([], c ∷ s)

-- `re.search`: the first position at which the pattern matches
unfoldable pub search_text {ℓ} : {A : Type ℓ} → (Text → Option A) → Text → Option A
search_text m [] = m []
search_text m (c ∷ s) =
    let later = search_text m s in elim (m (c ∷ s)) [ some a ↦ some a | none ↦ later ]

abbrev non_empty : Text × Text → Option Text
non_empty ([], rest) = none
non_empty (c ∷ run, rest) = some (c ∷ run)

-- `DW_OP_addr:\s*([0-9a-fA-F]+)` at the start of the text
unfoldable pub match_addr : Text → Option Text
unfolding strip_prefix skip_spaces span
match_addr s = elim (strip_prefix (codes "DW_OP_addr:") s) [
  | none ↦ none
  | some rest ↦ non_empty (span is_hex_digit (skip_spaces rest))
]

-- Of a global variable: no location, and a location that is no address, give `None`.
unfoldable pub global_location_value : Option Text → Option Text
unfolding match_addr search_text
global_location_value none = none
global_location_value (some location) = search_text match_addr location

unfoldable pub decimal : ℕ → Text → ℕ
decimal acc [] = acc
decimal acc (c ∷ s) = decimal (acc * 10 + (c - 48)) s

-- digits up to a closing bracket
abbrev closed : Text × Text → Option ℕ
closed ([], rest) = none
closed (d ∷ run, []) = none
closed (d ∷ run, c ∷ rest) = if c == b')' then some (decimal 0 (d ∷ run)) else none

abbrev signed : Text → Option ℤ
signed [] = none
signed (c ∷ s) =
    if c == b'-'
    then (elim (closed (span is_digit s)) [ none ↦ none | some n ↦ some (negate n) ])
    else if c == b'+'
    then (elim (closed (span is_digit s)) [ none ↦ none | some n ↦ some (pos n) ])
    else elim (closed (span is_digit (c ∷ s))) [ none ↦ none | some n ↦ some (pos n) ]

-- `\(DW_OP_fbreg:\s*([-+]?\d+)\)` at the start of the text, read as an integer
unfoldable pub match_fbreg : Text → Option ℤ
unfolding strip_prefix skip_spaces span decimal
match_fbreg s = elim (strip_prefix (codes "(DW_OP_fbreg:") s) [
  | none ↦ none
  | some rest ↦ signed (skip_spaces rest)
]

abbrev group_1 : Option ℤ → Result ℤ
group_1 none = err attribute_error
group_1 (some i) = ok i

-- Of a formal parameter and of a local variable: no match is `None`, which has no `group`.
unfoldable pub frame_location_value : Option Text → Result ℤ
unfolding match_fbreg search_text
frame_location_value none = err type_error
frame_location_value (some location) = group_1 (search_text match_fbreg location)
