-- ===== src/Collection/Tests.antt =====
-- client/descriptions.go and db/base/collection_keys.go: a collection of users, and its keys.
use defradg.Prelude.{◌≡◌, refl, codes, [], ◌∷◌, none, some, arith, err, ok, invalid_crdt_type}
use defradg.Prelude.Decimal.{sprint}
use defradg.Keys.{DataStoreKey, new_data_store_key, to_string}
use defradg.Keys.RoundTrip.{key_of}
use defradg.Collection.{
  lww_register, object, FieldDescription, CollectionDescription, first_field, id_string, get_field,
  get_field_by_id, get_relation, make_primary_index_key_for_crdt,
}
use defradg.Collection.FieldKeys.{make_primary_index_key_for_crdt-field}

abbrev pub age : FieldDescription
age = record {
  name = codes "age";
  id = 1;
  kind = 4;
  schema = [];
  relation_name = [];
  typ = lww_register;
  relation_type = 0;
}

abbrev pub author : FieldDescription
author = record {
  name = codes "author";
  id = 12;
  kind = 16;
  schema = codes "User";
  relation_name = codes "book_user";
  typ = lww_register;
  relation_type = 129;
}

abbrev pub books : CollectionDescription
books = record {
  name = codes "Book";
  id = 40;
  schema = record {
    schema_id = codes "bae";
    version_id = codes "baf";
    name = codes "Book";
    fields = age ∷ author ∷ [];
  };
}

abbrev instance_key : DataStoreKey
instance_key = record {
  collection_id = [];
  instance_type = codes "v";
  doc_key = codes "doc";
  field_id = [];
}

id_string-books : id_string books ≡ codes "40"
unfolding id_string sprint
id_string-books = refl

get_relation-books : get_relation books (codes "book_user") ≡ some author
unfolding get_relation first_field
get_relation-books = refl

no_field : get_field books (codes "title") ≡ none
unfolding get_field first_field
no_field = refl

no_object :
    make_primary_index_key_for_crdt books object instance_key (codes "age") ≡ err invalid_crdt_type
unfolding make_primary_index_key_for_crdt
no_object = refl

get_field-author : get_field books (codes "author") ≡ some author
unfolding get_field first_field
get_field-author = refl

make_primary_index_key_for_crdt-field_example :
    (make_primary_index_key_for_crdt books lww_register instance_key (codes "author")
      ≡ ok (key_of (id_string books) (codes "v") (codes "doc") (sprint 12)))
    × (new_data_store_key
          (to_string (key_of (id_string books) (codes "v") (codes "doc") (sprint 12)))
        ≡ ok (key_of (id_string books) (codes "v") (codes "doc") (sprint 12)))
    × (get_field_by_id books (sprint 12) ≡ some author)
make_primary_index_key_for_crdt-field_example =
    make_primary_index_key_for_crdt-field books instance_key (codes "author") author
      get_field-author
      ((omega arith, λ e. absurd (omega (arith, e))), ((omega arith, λ e. refl), tt))
      (record { full = refl; plain = omega arith }) (record { full = refl; plain = omega arith })
