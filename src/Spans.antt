-- ===== src/Spans.antt =====
-- core/data.go: spans of keys, and how they are merged.
pub mod Union
pub mod Merge
pub mod Tests
use defradg.Prelude.{
  ℕ, zero, suc, ◌+◌, ◌-◌, Bytes, Bool, true, false, ◌&&◌, ◌||◌, List, [], ◌∷◌, ◌++◌, length, take,
  drop, reverse, Option, none, some, ◌==◌, leb, bytes_eq, bytes_lt, bytes_le, has_prefix,
  if◌then◌else◌, Result, ok, err, panic, ◌>>=◌,
}
use defradg.Keys.{DataStoreKey, to_string, equal, prefix_end}

-- From `start` on, and before `end`.
pub record Span : Type 0 where
  pub start : DataStoreKey
  pub end : DataStoreKey

unfoldable pub new_span : DataStoreKey → DataStoreKey → Span
new_span s e = record { start = s; end = e }

pub data SpanComparisonResult : Type 0 where
  before start_before_end_equal_to_start start_before_end_within : SpanComparisonResult
  start_before_end_equal start_before_end_after start_equal_end_within : SpanComparisonResult
  equal_spans start_equal_end_after start_within_end_within : SpanComparisonResult
  start_within_end_after start_within_end_equal : SpanComparisonResult
  start_equal_to_end_end_after after : SpanComparisonResult

-- `this == other`
abbrev same_span : Span → Span → Bool
same_span s o = equal s.start o.start && equal s.end o.end

unfoldable pub is_adjacent : DataStoreKey → DataStoreKey → Bool
is_adjacent k o =
    length (to_string k) == length (to_string o)
    && (bytes_eq (to_string (prefix_end k)) (to_string o)
        || bytes_eq (to_string k) (to_string (prefix_end o)))

-- The tests of Compare on the texts of the ends, in their order, with the two tests of adjacency.
unfoldable pub compare_texts : Bytes → Bytes → Bytes → Bytes → Bool → Bool → SpanComparisonResult
compare_texts this_start this_end other_start other_end end_adjacent start_adjacent =
    if bytes_lt this_start other_start
    then (if bytes_eq this_end other_start || end_adjacent
        then start_before_end_equal_to_start
        else if bytes_lt this_end other_start
        then before
        else if bytes_lt this_end other_end || has_prefix this_end other_end
        then start_before_end_within
        else if bytes_eq this_end other_end
        then start_before_end_equal
        else start_before_end_after)
    else if bytes_eq this_start other_start
    then (if bytes_lt this_end other_end || has_prefix this_end other_end
        then start_equal_end_within
        else if bytes_eq this_end other_end
        then equal_spans
        else start_equal_end_after)
    else if bytes_lt this_start other_end
    then (if bytes_lt this_end other_end || has_prefix this_end other_end
        then start_within_end_within
        else if bytes_eq this_end other_end
        then start_within_end_equal
        else start_within_end_after)
    else if bytes_eq this_start other_end || start_adjacent
    then start_equal_to_end_end_after
    else after

unfoldable pub compare : Span → Span → SpanComparisonResult
compare this other =
    if same_span this other
    then equal_spans
    else compare_texts (to_string this.start) (to_string this.end) (to_string other.start)
        (to_string other.end) (is_adjacent this.end other.start) (is_adjacent this.start other.end)

-- A list of spans as a Go slice, whose places may be nil.
abbrev pub Places : Type 0
Places = List (Option Span)

-- `spans[i] = s`
unfoldable pub set_place : Places → ℕ → Option Span → Result Places
set_place [] i s = err panic
set_place (p ∷ ps) zero s = ok (s ∷ ps)
set_place (p ∷ ps) (suc i) s = do ps' ← set_place ps i s; ok (p ∷ ps')

-- A call of a method of a place, which panics on nil.
unfoldable pub span_at : Option Span → Result Span
span_at none = err panic
span_at (some s) = ok s

abbrev pub nils : ℕ → Places
nils zero = []
nils (suc n) = none ∷ nils n

-- The search in removeBefore, from an index on, with the index that was found last.
unfoldable pub last_matching : Places → ℕ → Bytes → Option ℕ → Result (Option ℕ)
last_matching [] i end last = ok last
last_matching (p ∷ ps) i end last = do
  s ← span_at p
  last_matching ps (i + 1) end (if bytes_le (to_string s.end) end then some i else last)

-- The items that follow, each written at the same index.
unfoldable pub write_following : Places → ℕ → Places → Result Places
write_following [] j result = ok result
write_following (p ∷ ps) j result = do result' ← set_place result j p; write_following ps j result'

unfoldable pub remove_before : Places → ℕ → Bytes → Result Places
remove_before spans start_index end = do
  last ← last_matching (drop start_index spans) start_index end none
  elim last [
    | none ↦ ok spans
    | some index ↦
        let number = index - start_index in
        let result = take start_index spans ++ nils (length spans - number - start_index) in
        write_following (drop (index + 1) spans) (start_index + number) result
  ]

-- The cases of MergeAscending.
pub data Way : Type 0 where
  put_before extend_start replace contained extend_end pass : Way

abbrev pub way_of : SpanComparisonResult → Way
way_of before = put_before
way_of start_before_end_equal_to_start = extend_start
way_of start_before_end_within = extend_start
way_of start_before_end_equal = extend_start
way_of start_before_end_after = replace
way_of start_equal_end_within = contained
way_of equal_spans = contained
way_of start_within_end_within = contained
way_of start_within_end_equal = contained
way_of start_equal_end_after = extend_end
way_of start_within_end_after = extend_end
way_of start_equal_to_end_end_after = extend_end
way_of after = pass

-- `newArray[j] = uniqueSpans[i]`, for each of the places behind the new one.
abbrev pub copies : Option Span → Places → Places
copies p [] = []
copies p (q ∷ qs) = p ∷ copies p qs

-- removeBefore from a place on, and then the place is written.
abbrev pub replaced : Places → ℕ → Bytes → Span → Result Places
replaced spans i end s = do spans' ← remove_before spans i end; set_place spans' i (some s)

-- What is made of the span in each way, by the results of the cases.
abbrev pub by_way : {A : Type 0} → Way → A → A → A → A → A → A → A
by_way put_before a b c d e f = a
by_way extend_start a b c d e f = b
by_way replace a b c d e f = c
by_way contained a b c d e f = d
by_way extend_end a b c d e f = e
by_way pass a b c d e f = f

abbrev pub found_in : Result Places → Result (Places × Bool)
found_in r = do spans ← r; ok (spans, true)

-- The loop over the unique spans, those before `i` and those from there on: what is left of them, and
-- whether the span was found among them.
unfoldable pub merge_span : Span → Places → Places → Bool → Result (Places × Bool)
merge_span s front [] found = ok (front, found)
merge_span s front (none ∷ ps) found = err panic
merge_span s front (some u ∷ ps) found =
    by_way (way_of (compare s u)) (ok (front ++ (some s ∷ copies (some u) (some u ∷ ps)), true))
      (merge_span s (front ++ (some (new_span s.start u.end) ∷ [])) ps true)
      (found_in (replaced (front ++ (some u ∷ ps)) (length front) (to_string s.end) s))
      (ok (front ++ (some u ∷ ps), true))
      (found_in (
        replaced (front ++ (some u ∷ ps)) (length front) (to_string s.end)
          (new_span u.start s.end)))
      (merge_span s (front ++ (some u ∷ [])) ps found)

abbrev pub appended : Span → Places × Bool → Places
appended s (spans, true) = spans
appended s (spans, false) = spans ++ (some s ∷ [])

unfoldable pub merge_all : List Span → Places → Result Places
merge_all [] spans = ok spans
merge_all (s ∷ ss) spans = do merged ← merge_span s [] spans false; merge_all ss (appended s merged)

abbrev pub places : List Span → Places
places [] = []
places (s ∷ ss) = some s ∷ places ss

unfoldable pub merge_ascending : List Span → Result Places
merge_ascending spans = if leb (length spans) 1 then ok (places spans) else merge_all spans []
