-- ===== src/Collection.antt =====
-- client/descriptions.go, client/ctype.go and db/base/collection_keys.go: the descriptions of
-- collections, and the keys that their documents and fields are stored under. A number of an
-- enumeration of field kinds or relation types is the number.
pub mod FieldKeys
pub mod Tests
use defradg.Prelude.{
  ℕ, ◌/◌, ◌%◌, Bytes, codes, Bool, true, false, ◌&&◌, ◌||◌, not, List, [], ◌∷◌, Option, none, some,
  ltb, ◌==◌, bytes_eq, if◌then◌else◌, Result, ok, err, invalid_crdt_type,
}
use defradg.Prelude.Decimal.{sprint}
use defradg.Keys.{DataStoreKey, with_instance_info, with_field_id}

pub data CType : Type 0 where
  none_crdt lww_register object composite : CType

pub record FieldDescription : Type 0 where
  pub name : Bytes
  pub id : ℕ
  pub kind : ℕ
  pub schema : Bytes
  pub relation_name : Bytes
  pub typ : CType
  pub relation_type : ℕ

pub record SchemaDescription : Type 0 where
  pub schema_id : Bytes
  pub version_id : Bytes
  pub name : Bytes
  pub fields : List FieldDescription

pub record CollectionDescription : Type 0 where
  pub name : Bytes
  pub id : ℕ
  pub schema : SchemaDescription

abbrev composite_namespace : Bytes
composite_namespace = codes "C"

abbrev foreign_object : ℕ
foreign_object = 16

abbrev foreign_object_array : ℕ
foreign_object_array = 17

-- A loop that returns at the first field of which a test holds; none is the false at its end.
unfoldable pub first_field :
    (FieldDescription → Bool) → List FieldDescription → Option FieldDescription
first_field test [] = none
first_field test (f ∷ fs) = let rest = first_field test fs in if test f then some f else rest

abbrev pub is_empty_schema : SchemaDescription → Bool
is_empty_schema s = elim s.fields [ [] ↦ true | _ ∷ _ ↦ false ]

unfoldable pub id_string : CollectionDescription → Bytes
id_string c = sprint c.id

unfoldable pub get_field : CollectionDescription → Bytes → Option FieldDescription
get_field c name =
    if is_empty_schema c.schema
    then none
    else first_field (λ f. bytes_eq f.name name) c.schema.fields

unfoldable pub get_field_by_id : CollectionDescription → Bytes → Option FieldDescription
get_field_by_id c id =
    if is_empty_schema c.schema
    then none
    else first_field (λ f. bytes_eq (sprint f.id) id) c.schema.fields

unfoldable pub get_relation : CollectionDescription → Bytes → Option FieldDescription
get_relation c name =
    if is_empty_schema c.schema
    then none
    else first_field (λ f. bytes_eq f.relation_name name) c.schema.fields

abbrev id_or_zero : Option FieldDescription → ℕ
id_or_zero none = 0
id_or_zero (some f) = f.id

unfoldable pub get_field_key : SchemaDescription → Bytes → ℕ
get_field_key s name = id_or_zero (first_field (λ f. bytes_eq f.name name) s.fields)

is_object : FieldDescription → Bool
is_object f = f.kind == foreign_object || f.kind == foreign_object_array

is_object_array : FieldDescription → Bool
is_object_array f = f.kind == foreign_object_array

-- `&Relation_Type_Primary != 0` asks for the bit of 128.
is_primary_relation : FieldDescription → Bool
is_primary_relation f = ltb 0 f.relation_type && not (f.relation_type / 128 % 2 == 0)

unfoldable pub make_collection_key : CollectionDescription → DataStoreKey
make_collection_key c = record {
  collection_id = id_string c;
  instance_type = [];
  doc_key = [];
  field_id = [];
}

unfoldable make_doc_key : CollectionDescription → Bytes → DataStoreKey
make_doc_key c doc_key = record {
  collection_id = id_string c;
  instance_type = [];
  doc_key = doc_key;
  field_id = [];
}

unfoldable pub field_key : CollectionDescription → DataStoreKey → Bytes → DataStoreKey
field_key c key name =
    if is_empty_schema c.schema
    then with_field_id key name
    else with_field_id key (sprint (get_field_key c.schema name))

unfoldable pub make_primary_index_key_for_crdt :
    CollectionDescription → CType → DataStoreKey → Bytes → Result DataStoreKey
make_primary_index_key_for_crdt c composite key name =
    ok (with_field_id (with_instance_info (make_collection_key c) key) composite_namespace)
make_primary_index_key_for_crdt c lww_register key name =
    ok (with_instance_info (make_collection_key c) (field_key c key name))
make_primary_index_key_for_crdt c none_crdt key name = err invalid_crdt_type
make_primary_index_key_for_crdt c object key name = err invalid_crdt_type
