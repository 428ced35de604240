-- ===== src/Keys/Distinct.antt =====
-- core/key.go: the keys under which a register is stored are written differently.
use defradg.Prelude.{◌≡◌, refl, ap, ◌≢◌, ◌∙◌, Bytes, codes, [], arith, Lacks}
use defradg.Keys.{
  slash, value_key, priority_key, deleted_key, DataStoreKey, to_string, to_primary_data_store_key,
  primary_to_string,
}
use defradg.Keys.RoundTrip.{IsSegment, to_string-injective}

-- A key of a field of a document, or of the document where the field is empty.
pub record IsAddress (k : DataStoreKey) : Type 0 where
  pub collection : IsSegment k.collection_id
  pub doc : IsSegment k.doc_key
  pub field : Lacks slash k.field_id

abbrev pub at_kind : DataStoreKey → Bytes → DataStoreKey
at_kind k i = record k { instance_type = i }

-- The key that a primary key is the text of.
abbrev pub marker_key : DataStoreKey → DataStoreKey
marker_key k = record {
  collection_id = k.collection_id;
  instance_type = codes "pk";
  doc_key = k.doc_key;
  field_id = [];
}

pub primary-eq-marker :
    (k : DataStoreKey)
    → IsAddress k
    → primary_to_string (to_primary_data_store_key k) ≡ to_string (marker_key k)
unfolding primary_to_string to_primary_data_store_key to_string
primary-eq-marker k h = rw (h.collection.full) (rw (h.doc.full))

pub kinds_ne :
    (k : DataStoreKey) (i j : Bytes)
    → IsAddress k
    → IsSegment i
    → IsSegment j
    → i ≢ j
    → to_string (at_kind k i) ≢ to_string (at_kind k j)
kinds_ne k i j h hi hj n e = n (
    ap (λ (x : DataStoreKey). x.instance_type)
      (to_string-injective (at_kind k i) (at_kind k j)
        (record { collection = h.collection; kind = hi; doc = h.doc }) h.field
        (record { collection = h.collection; kind = hj; doc = h.doc }) h.field e))

pub kind-ne-marker :
    (k : DataStoreKey) (i : Bytes)
    → IsAddress k
    → IsSegment i
    → i ≢ codes "pk"
    → to_string (at_kind k i) ≢ primary_to_string (to_primary_data_store_key k)
kind-ne-marker k i h hi n e = n (
    ap (λ (x : DataStoreKey). x.instance_type)
      (to_string-injective (at_kind k i) (marker_key k)
        (record { collection = h.collection; kind = hi; doc = h.doc }) h.field
        (record {
          collection = h.collection;
          kind = record { full = refl; plain = omega arith };
          doc = h.doc;
        })
        tt (e ∙ primary-eq-marker k h)))

pub value-IsSegment : IsSegment value_key
value-IsSegment = record { full = refl; plain = omega arith }

pub priority-IsSegment : IsSegment priority_key
priority-IsSegment = record { full = refl; plain = omega arith }

pub deleted-IsSegment : IsSegment deleted_key
deleted-IsSegment = record { full = refl; plain = omega arith }

pub pk-IsSegment : IsSegment (codes "pk")
pk-IsSegment = record { full = refl; plain = omega arith }
