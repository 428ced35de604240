-- ===== src/Collection/FieldKeys.antt =====
-- db/base/collection_keys.go with client/descriptions.go: the key of a field leads back to the field.
use defradg.Prelude.{
  ◌^◌, ◌<◌, ◌≡◌, refl, ap, subst, Bytes, Bool, true, false, List, [], ◌∷◌, some, All, arith,
  bytes_eq, bytes_eq_iff, ok, Bool-cases, inl, inr,
}
use defradg.Prelude.Decimal.{sprint, sprint-injective, sprint-Lacks, sprint-is_empty}
use defradg.Keys.{
  slash, with_instance_info, with_field_id, DataStoreKey, new_data_store_key, to_string,
}
use defradg.Keys.RoundTrip.{IsSegment, key_of, new_data_store_key-to_string}
use defradg.Collection.{
  lww_register, FieldDescription, CollectionDescription, first_field, id_string, get_field,
  get_field_by_id, get_field_key, is_empty_schema, field_key, make_collection_key,
  make_primary_index_key_for_crdt,
}

-- Ids are of 32 bits, and no other field has that of `f`.
abbrev pub OwnsId : FieldDescription → List FieldDescription → Type 0
OwnsId f = All (λ g. (g.id < 2 ^ 32) × (g.id ≡ f.id → g ≡ f))

first_field-All :
    (P : FieldDescription → Type 0) (test : FieldDescription → Bool) (fs : List FieldDescription)
    {f : FieldDescription}
    → first_field test fs ≡ some f
    → All P fs
    → P f
unfolding first_field
first_field-All P test [] e h = absurd (cc)
first_field-All P test (g ∷ gs) {f} e h = elim (Bool-cases (test g)) [
  | inl t ↦ let q : some g ≡ some f = rw t at e in let r : g ≡ f = cc in subst P r h.0
  | inr t ↦ first_field-All P test gs (rw t at e) h.1
]

bytes_eq-same : (s : Bytes) → bytes_eq s s ≡ true
bytes_eq-same s = (bytes_eq_iff s s).1 refl

-- The field that a search finds is the one that a search for its id finds.
first_field-id :
    (test : FieldDescription → Bool) (fs : List FieldDescription) (f : FieldDescription)
    → first_field test fs ≡ some f
    → f.id < 2 ^ 32
    → OwnsId f fs
    → first_field (λ g. bytes_eq (sprint g.id) (sprint f.id)) fs ≡ some f
unfolding first_field
first_field-id test [] f e h o = absurd (cc)
first_field-id test (g ∷ gs) f e h o = elim (Bool-cases (bytes_eq (sprint g.id) (sprint f.id))) [
  | inl t ↦
      let same =
        sprint-injective g.id f.id o.0.0 h ((bytes_eq_iff (sprint g.id) (sprint f.id)).0 t) in
      rw t (ap some (o.0.1 same))
  | inr t ↦ elim (Bool-cases (test g)) [
    | inl u ↦
        let q : some g ≡ some f = rw u at e in
        let r : g ≡ f = cc in
        let w = bytes_eq-same (sprint f.id) in
        absurd (cc (ap (λ x. bytes_eq (sprint x.id) (sprint f.id)) r))
    | inr u ↦ rw t (first_field-id test gs f (rw u at e) h o.1)
  ]
]

get_field-first :
    (c : CollectionDescription) (name : Bytes) {f : FieldDescription}
    → get_field c name ≡ some f
    → (is_empty_schema c.schema ≡ false)
      × (first_field (λ g. bytes_eq g.name name) c.schema.fields ≡ some f)
unfolding get_field
get_field-first c name e = elim (Bool-cases (is_empty_schema c.schema)) [
  | inl t ↦ absurd (cc (rw t at e))
  | inr t ↦ (t, rw t at e)
]

-- In a collection whose fields have ids of 32 bits, no two the same, the key of a register of a field
-- of the schema, where the key has an instance type and a document key that are components of a path,
-- is that of the collection, the instance and the id of the field; it is read back from its text, and
-- the field is found by its field id.
pub make_primary_index_key_for_crdt-field :
    (c : CollectionDescription) (key : DataStoreKey) (name : Bytes) (f : FieldDescription)
    → get_field c name ≡ some f
    → OwnsId f c.schema.fields
    → IsSegment key.instance_type
    → IsSegment key.doc_key
    → (make_primary_index_key_for_crdt c lww_register key name
        ≡ ok (key_of (id_string c) key.instance_type key.doc_key (sprint f.id)))
      × (new_data_store_key
            (to_string (key_of (id_string c) key.instance_type key.doc_key (sprint f.id)))
          ≡ ok (key_of (id_string c) key.instance_type key.doc_key (sprint f.id)))
      × (get_field_by_id c (sprint f.id) ≡ some f)
unfolding make_primary_index_key_for_crdt with_instance_info make_collection_key field_key
    with_field_id get_field_key id_string get_field_by_id
make_primary_index_key_for_crdt-field c key name f e o hi hd =
    let found = get_field-first c name e in
    let own =
      first_field-All (λ g. (g.id < 2 ^ 32) × (g.id ≡ f.id → g ≡ f)) (λ g. bytes_eq g.name name)
        c.schema.fields found.1 o in
    (
      rw (found.0, found.1) refl,
      new_data_store_key-to_string
          (key_of (id_string c) key.instance_type key.doc_key (sprint f.id))
          (record {
            collection = record {
              full = sprint-is_empty c.id;
              plain = sprint-Lacks slash c.id (omega arith);
            };
            kind = hi;
            doc = hd;
          })
          (sprint-Lacks slash f.id (omega arith)),
      rw found.0 (first_field-id (λ g. bytes_eq g.name name) c.schema.fields f found.1 own.0 o),
    )
