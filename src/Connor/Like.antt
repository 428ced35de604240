-- ===== src/Connor/Like.antt =====
-- connor/like.go and nlike.go: patterns in which a percent sign stands for any text.
pub mod Pattern
pub mod Agree
use defradg.Prelude.{
  ℕ, zero, suc, ◌-◌, Bytes, codes, Bool, true, false, not, ◌&&◌, ◌||◌, List, [], ◌∷◌, Option, none,
  some, length, drop, leb, ◌==◌, if◌then◌else◌, bytes_eq, has_prefix, split, Result, ok, err, ◌>>=◌,
  unhandled_type,
}
use defradg.Connor.Value.{Std, Value, text, maybe_text}
use defradg.Connor.Compare.{is_nil}

abbrev pub percent : ℕ
percent = 37

-- `strings.HasSuffix(s, t)`
abbrev pub has_suffix : Bytes → Bytes → Bool
has_suffix s t = leb (length t) (length s) && bytes_eq (drop (length s - length t) s) t

-- `strings.Contains(s, t)`
abbrev pub contains : Bytes → Bytes → Bool
contains [] t = has_prefix [] t
contains (x ∷ s) t = has_prefix (x ∷ s) t || contains s t

-- Whether the text starts with a percent sign, and what follows it.
abbrev pub trim_front : Bytes → Bool × Bytes
trim_front [] = (false, [])
trim_front (x ∷ cn) = if x == percent then (true, cn) else (false, x ∷ cn)

-- Whether the text ends with a percent sign, and what is before it.
abbrev pub trim_back : Bytes → Bool × Bytes
trim_back [] = (false, [])
trim_back (x ∷ []) = if x == percent then (true, []) else (false, x ∷ [])
trim_back (x ∷ y ∷ cn) = let (b, rest) = trim_back (y ∷ cn) in (b, x ∷ rest)

-- The switch at the end, on the two flags and the parts between percent signs.
abbrev pub like_parts : Bool → Bool → List Bytes → Bytes → Bytes → Bool
like_parts true true parts cn d = contains d cn
like_parts true false parts cn d = has_suffix d cn
like_parts false true parts cn d = has_prefix d cn
like_parts false false (a ∷ b ∷ []) cn d = has_prefix d a && has_suffix d b
like_parts false false _ cn d = bytes_eq cn d

unfoldable pub like_text : Bytes → Bytes → Bool
like_text cn d =
    if leb 2 (length cn)
    then (let (front, cn1) = trim_front cn in
        let (back, cn2) = trim_back cn1 in
        like_parts front back (if not front && not back then split percent cn2 else []) cn2 d)
    else bytes_eq cn d

module _ {L : Std} where
  abbrev like_value : Value L → Value L → Result Bool
  like_value (text cn) (text d) = ok (like_text cn d)
  like_value (text cn) _ = ok false
  like_value _ _ = err unhandled_type

  unfoldable pub like : Value L → Value L → Result Bool
  like c (maybe_text none) = ok (is_nil c)
  like c (maybe_text (some d)) = like_value c (text d)
  like c d = like_value c d

  unfoldable pub nlike : Value L → Value L → Result Bool
  nlike c d = do m ← like c d; ok (not m)
