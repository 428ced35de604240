-- ===== src/Spans/Tests.antt =====
-- core/data.go on concrete spans, and the theorems of Spans there.
use defradg.Prelude.{◌≡◌, refl, Bytes, codes, [], ◌∷◌, none, some, ok, err, panic}
use defradg.Keys.{DataStoreKey, to_string, equal, prefix_end, bytes_prefix_end}
use defradg.Spans.{
  Span, after, compare, compare_texts, is_adjacent, new_span, places, span_at, merge_ascending,
  merge_all, merge_span, remove_before, set_place, last_matching, write_following, way_of,
}
use defradg.Spans.Union.{Fits, Keeps, merged, compare-Keeps}
use defradg.Spans.Merge.{InOrder, merge_ascending-InOrder}

abbrev key : Bytes → DataStoreKey
key doc = record {
  collection_id = codes "1";
  instance_type = codes "v";
  doc_key = doc;
  field_id = [];
}

abbrev from_to : Bytes → Bytes → Span
from_to s e = record { start = key s; end = key e }

abbrev low : Span
low = from_to (codes "b") (codes "d")

abbrev middle : Span
middle = from_to (codes "h") (codes "k")

abbrev high : Span
high = from_to (codes "p") (codes "r")

middle_after : compare middle low ≡ after
unfolding compare compare_texts is_adjacent to_string equal prefix_end bytes_prefix_end
middle_after = refl

high_after_low : compare high low ≡ after
unfolding compare compare_texts is_adjacent to_string equal prefix_end bytes_prefix_end
high_after_low = refl

high_after : compare high middle ≡ after
unfolding compare compare_texts is_adjacent to_string equal prefix_end bytes_prefix_end
high_after = refl

three-InOrder : InOrder [] (low ∷ middle ∷ high ∷ [])
three-InOrder = (tt, ((middle_after, tt), ((high_after_low, (high_after, tt)), tt)))

merge_ascending-InOrder_example :
    merge_ascending (low ∷ middle ∷ high ∷ []) ≡ ok (places (low ∷ middle ∷ high ∷ []))
merge_ascending-InOrder_example = merge_ascending-InOrder (low ∷ middle ∷ high ∷ []) three-InOrder

abbrev between : Span
between = from_to (codes "f") (codes "fb")

abbrev wide : Span
wide = from_to (codes "c") (codes "i")

wide-Fits : Fits wide low
unfolding to_string is_adjacent prefix_end bytes_prefix_end
wide-Fits = record { first = refl; second = refl; extends = λ h. cc h; near = λ h. cc h }

compare-Keeps_example :
    Keeps (merged (way_of (compare wide low)) wide low) wide low (codes "/1/v/e")
compare-Keeps_example = compare-Keeps wide low (codes "/1/v/e") wide-Fits

-- A span that reaches over the end of the first of two, and not to the second: the second is lost, and
-- its place is nil.
nil_left :
    merge_ascending (low ∷ middle ∷ from_to (codes "c") (codes "f") ∷ [])
    ≡ ok (some (from_to (codes "b") (codes "f")) ∷ none ∷ [])
unfolding merge_ascending merge_all merge_span remove_before set_place last_matching write_following
    span_at new_span compare compare_texts is_adjacent to_string equal prefix_end bytes_prefix_end
nil_left = refl

-- A span behind those two then panics on the place that is nil.
nil_panics :
    merge_ascending (low ∷ middle ∷ from_to (codes "c") (codes "f") ∷ high ∷ []) ≡ err panic
unfolding merge_ascending merge_all merge_span remove_before set_place last_matching write_following
    span_at new_span compare compare_texts is_adjacent to_string equal prefix_end bytes_prefix_end
nil_panics = refl
