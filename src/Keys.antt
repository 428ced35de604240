-- ===== src/Keys.antt =====
-- core/key.go: the keys of the stores and the texts that they are written as. A Go string is a list
-- of bytes. A `cid.Cid` is a value of a section's parameter, since go-cid is another repository.
pub mod RoundTrip
pub mod PrefixEnd
pub mod Range
pub mod Distinct
pub mod Tests
use defradg.Prelude.{
  ℕ, ◌+◌, ◌%◌, Bytes, codes, Bool, true, false, ◌&&◌, List, [], ◌∷◌, ◌++◌, reverse, Option, none,
  some, is_empty, split, bytes_eq, ◌==◌, if◌then◌else◌, Error, Result, ok, err, ◌>>=◌, empty_key,
  invalid_key,
}

abbrev pub slash : ℕ
slash = 0x2f

abbrev pub value_key : Bytes
value_key = codes "v"

abbrev pub priority_key : Bytes
priority_key = codes "p"

abbrev pub deleted_key : Bytes
deleted_key = codes "d"

abbrev pub collection : Bytes
collection = codes "/collection/names"

abbrev pub collection_schema : Bytes
collection_schema = codes "/collection/schema"

abbrev pub collection_schema_version : Bytes
collection_schema_version = codes "/collection/version"

abbrev pub seq : Bytes
seq = codes "/seq"

abbrev pub primary_key : Bytes
primary_key = codes "/pk"

abbrev pub replicator : Bytes
replicator = codes "/replicator/id"

abbrev pub p2p_collection : Bytes
p2p_collection = codes "/p2p/collection"

pub record DataStoreKey : Type 0 where
  pub collection_id : Bytes
  pub instance_type : Bytes
  pub doc_key : Bytes
  pub field_id : Bytes

pub record PrimaryDataStoreKey : Type 0 where
  pub collection_id : Bytes
  pub doc_key : Bytes

-- `trim_prefix` is `strings.TrimPrefix(key, "/")`.
trim_prefix : Bytes → Bytes
trim_prefix [] = []
trim_prefix (c ∷ s) = if c == slash then s else c ∷ s

-- The checks on the number of elements, and the assignments of `NewDataStoreKey`.
from_elements : List Bytes → Result DataStoreKey
from_elements (c ∷ i ∷ d ∷ []) =
    ok (record { collection_id = c; instance_type = i; doc_key = d; field_id = [] })
from_elements (c ∷ i ∷ d ∷ f ∷ []) =
    ok (record { collection_id = c; instance_type = i; doc_key = d; field_id = f })
from_elements _ = err invalid_key

pub new_data_store_key : Bytes → Result DataStoreKey
unfolding trim_prefix from_elements
new_data_store_key key =
    if is_empty key then err empty_key else from_elements (split slash (trim_prefix key))

unfoldable pub with_value_flag : DataStoreKey → DataStoreKey
with_value_flag k = record k { instance_type = value_key }

unfoldable pub with_priority_flag : DataStoreKey → DataStoreKey
with_priority_flag k = record k { instance_type = priority_key }

unfoldable pub with_deleted_flag : DataStoreKey → DataStoreKey
with_deleted_flag k = record k { instance_type = deleted_key }

unfoldable pub with_doc_key : DataStoreKey → Bytes → DataStoreKey
with_doc_key k d = record k { doc_key = d }

unfoldable pub with_instance_info : DataStoreKey → DataStoreKey → DataStoreKey
with_instance_info k key = record k {
  doc_key = key.doc_key;
  field_id = key.field_id;
  instance_type = key.instance_type;
}

unfoldable pub with_field_id : DataStoreKey → Bytes → DataStoreKey
with_field_id k f = record k { field_id = f }

-- `if s != "" { result = result + "/" + s }`
append_segment : Bytes → Bytes → Bytes
append_segment result s = if is_empty s then result else result ++ (slash ∷ s)

unfoldable pub to_string : DataStoreKey → Bytes
unfolding append_segment
to_string k =
    append_segment
      (append_segment (append_segment (append_segment [] k.collection_id) k.instance_type)
        k.doc_key)
      k.field_id

unfoldable pub equal : DataStoreKey → DataStoreKey → Bool
equal k other =
    bytes_eq k.collection_id other.collection_id
    && (bytes_eq k.doc_key other.doc_key
        && (bytes_eq k.field_id other.field_id && bytes_eq k.instance_type other.instance_type))

unfoldable pub to_primary_data_store_key : DataStoreKey → PrimaryDataStoreKey
to_primary_data_store_key k = record { collection_id = k.collection_id; doc_key = k.doc_key }

unfoldable pub to_data_store_key : PrimaryDataStoreKey → DataStoreKey
to_data_store_key k = record {
  collection_id = k.collection_id;
  instance_type = [];
  doc_key = k.doc_key;
  field_id = [];
}

unfoldable pub primary_to_string : PrimaryDataStoreKey → Bytes
unfolding append_segment
primary_to_string k = append_segment (append_segment [] k.collection_id ++ primary_key) k.doc_key

-- The keys of the system store hold one name each, behind a fixed path.
pub collection_key_to_string : Bytes → Bytes
unfolding append_segment
collection_key_to_string name = append_segment collection name

pub collection_schema_key_to_string : Bytes → Bytes
unfolding append_segment
collection_schema_key_to_string schema_id = append_segment collection_schema schema_id

pub collection_schema_version_key_to_string : Bytes → Bytes
unfolding append_segment
collection_schema_version_key_to_string version_id =
    append_segment collection_schema_version version_id

pub sequence_key_to_string : Bytes → Bytes
unfolding append_segment
sequence_key_to_string name = append_segment seq name

pub p2p_collection_key_to_string : Bytes → Bytes
unfolding append_segment
p2p_collection_key_to_string id = append_segment p2p_collection id

pub replicator_key_to_string : Bytes → Bytes
unfolding append_segment
replicator_key_to_string id = append_segment replicator id

-- The collection id of a `P2PCollectionKey`.
fourth_element : List Bytes → Result Bytes
fourth_element (a ∷ b ∷ c ∷ d ∷ []) = ok d
fourth_element _ = err invalid_key

pub new_p2p_collection_key_from_string : Bytes → Result Bytes
unfolding fourth_element
new_p2p_collection_key_from_string key = fourth_element (split slash key)

-- The loop of `bytesPrefixEnd`, over the bytes not yet visited, the last one first.
carry : Bytes → Option Bytes
carry [] = none
carry (x ∷ before) =
    let rest = carry before in
    let y = (x + 1) % 256 in if y == 0 then rest else some (reverse (y ∷ before))

or_else : Option Bytes → Bytes → Bytes
or_else none b = b
or_else (some e) b = e

unfoldable pub bytes_prefix_end : Bytes → Bytes
unfolding carry or_else
bytes_prefix_end b = or_else (carry (reverse b)) b

not_empty : Bytes → Bool
not_empty [] = false
not_empty (x ∷ xs) = true

unfoldable pub prefix_end : DataStoreKey → DataStoreKey
unfolding not_empty
prefix_end k =
    if not_empty k.field_id
    then record k { field_id = bytes_prefix_end k.field_id }
    else if not_empty k.doc_key
    then record k { doc_key = bytes_prefix_end k.doc_key }
    else if not_empty k.instance_type
    then record k { instance_type = bytes_prefix_end k.instance_type }
    else if not_empty k.collection_id
    then record k { collection_id = bytes_prefix_end k.collection_id }
    else k

-- A headstore key; `doc_key` and `field_id` may be empty, and so may the Cid.
pub record HeadStoreKey (Cid : Type 0) : Type 0 where
  pub doc_key : Bytes
  pub field_id : Bytes
  pub cid : Option Cid

-- `cid_string` is `Cid.String`, `cid_decode` is `cid.Decode`.
module _ {Cid : Type 0} (cid_string : Cid → Bytes) (cid_decode : Bytes → Result Cid) where
  cid_segment : Bytes → Option Cid → Bytes
  cid_segment result none = result
  cid_segment result (some c) = result ++ (slash ∷ cid_string c)

  unfoldable pub head_to_string : HeadStoreKey Cid → Bytes
  unfolding append_segment cid_segment
  head_to_string k = cid_segment (append_segment (append_segment [] k.doc_key) k.field_id) k.cid

  head_elements : List Bytes → Result (HeadStoreKey Cid)
  head_elements (z ∷ d ∷ f ∷ c ∷ []) = do
    cid ← cid_decode c
    ok (record { doc_key = d; field_id = f; cid = some cid })
  head_elements _ = err invalid_key

  pub new_head_store_key : Bytes → Result (HeadStoreKey Cid)
  unfolding head_elements
  new_head_store_key key = head_elements (split slash key)

unfoldable pub to_head_store_key : {Cid : Type 0} → DataStoreKey → HeadStoreKey Cid
to_head_store_key k = record { doc_key = k.doc_key; field_id = k.field_id; cid = none }

unfoldable pub head_with_cid : {Cid : Type 0} → HeadStoreKey Cid → Cid → HeadStoreKey Cid
head_with_cid k c = record k { cid = some c }

unfoldable pub head_with_doc_key : {Cid : Type 0} → HeadStoreKey Cid → Bytes → HeadStoreKey Cid
head_with_doc_key k d = record k { doc_key = d }

unfoldable pub head_with_field_id : {Cid : Type 0} → HeadStoreKey Cid → Bytes → HeadStoreKey Cid
head_with_field_id k f = record k { field_id = f }
