-- ===== src/Keys/Tests.antt =====
-- core/key.go: keys on concrete texts, and the theorems of Keys at concrete keys.
use defradg.Prelude.{
  ◌≡◌, refl, ◌↔◌, Bool, true, false, Bytes, codes, [], ◌∷◌, some, arith, bytes_eq, bytes_lt,
  has_prefix, Result, ok, err, invalid_key, empty_key, bad_cid, if◌then◌else◌, Lacks, split,
}
use defradg.Keys.{
  slash, DataStoreKey, HeadStoreKey, new_data_store_key, to_string, prefix_end, bytes_prefix_end,
  new_head_store_key, head_to_string,
}
use defradg.Keys.RoundTrip.{
  IsSegment, new_data_store_key-to_string, new_head_store_key-head_to_string,
}
use defradg.Keys.PrefixEnd.{IsMax}
use defradg.Keys.Range.{last_component, prefix_end_range}

abbrev field_key : DataStoreKey
field_key = record {
  collection_id = codes "1";
  instance_type = codes "v";
  doc_key = codes "bae";
  field_id = codes "2";
}

written : to_string field_key ≡ codes "/1/v/bae/2"
unfolding to_string
written = refl

too_short : new_data_store_key (codes "/1/v") ≡ err invalid_key
unfolding new_data_store_key split
too_short = refl

no_text : new_data_store_key [] ≡ err empty_key
unfolding new_data_store_key
no_text = refl

carries : bytes_prefix_end (1 ∷ 255 ∷ []) ≡ 2 ∷ []
unfolding bytes_prefix_end
carries = refl

segment_example : IsSegment (codes "bae")
segment_example = record { full = refl; plain = omega arith }

new_data_store_key-to_string_example : new_data_store_key (to_string field_key) ≡ ok field_key
new_data_store_key-to_string_example =
    new_data_store_key-to_string field_key
      (record {
        collection = record { full = refl; plain = omega arith };
        kind = record { full = refl; plain = omega arith };
        doc = segment_example;
      })
      (omega arith)

-- Two Cids, for an example.
cid_text : Bool → Bytes
cid_text true = codes "Qm1"
cid_text false = codes "Qm0"

cid_read : Bytes → Result Bool
cid_read s =
    if bytes_eq s (codes "Qm1")
    then ok true
    else if bytes_eq s (codes "Qm0")
    then ok false
    else err bad_cid

read_text : (c : Bool) → cid_read (cid_text c) ≡ ok c
unfolding cid_read cid_text
read_text true = refl
read_text false = refl

text-Lacks : (c : Bool) → Lacks slash (cid_text c)
unfolding cid_text
text-Lacks true = omega arith
text-Lacks false = omega arith

abbrev head_key : HeadStoreKey Bool
head_key = record { doc_key = codes "bae"; field_id = codes "C"; cid = some true }

new_head_store_key-head_to_string_example :
    new_head_store_key cid_text cid_read (head_to_string cid_text cid_read head_key) ≡ ok head_key
new_head_store_key-head_to_string_example =
    new_head_store_key-head_to_string cid_text cid_read read_text text-Lacks head_key true refl
      segment_example (record { full = refl; plain = omega arith })

not-IsMax : ¬ IsMax (1 ∷ 255 ∷ [])
not-IsMax h = omega arith

not-IsMax_field : ¬ IsMax (last_component field_key)
not-IsMax_field h = omega arith

prefix_end_range_example : (has_prefix (codes "/1/v/bae/25") (to_string field_key) ≡ true) ↔ (
    (bytes_lt (codes "/1/v/bae/25") (to_string field_key) ≡ false)
    × (bytes_lt (codes "/1/v/bae/25") (to_string (prefix_end field_key)) ≡ true))
prefix_end_range_example =
    prefix_end_range field_key (codes "/1/v/bae/25")
      (record {
        collection = omega arith;
        kind = omega arith;
        doc = omega arith;
        field = omega arith;
      })
      (omega arith) not-IsMax_field
