-- ===== src/Keys/RoundTrip.antt =====
-- core/key.go: a key that is written and read again is the key.
use defradg.Prelude.{
  ◌≡◌, refl, ap, Bytes, [], ◌∷◌, ◌++◌, some, is_empty, false, Lacks, split, split-append,
  split-Lacks, Result, ok, append_assoc,
}
use defradg.Keys.{
  slash, DataStoreKey, new_data_store_key, to_string, HeadStoreKey, head_to_string,
  new_head_store_key, p2p_collection_key_to_string, new_p2p_collection_key_from_string,
}

-- A component of a path: not empty, and without a slash.
pub record IsSegment (s : Bytes) : Type 0 where
  pub full : is_empty s ≡ false
  pub plain : Lacks slash s

pub record IsWhole (k : DataStoreKey) : Type 0 where
  pub collection : IsSegment k.collection_id
  pub kind : IsSegment k.instance_type
  pub doc : IsSegment k.doc_key

abbrev pub key_of : Bytes → Bytes → Bytes → Bytes → DataStoreKey
key_of c i d f = record { collection_id = c; instance_type = i; doc_key = d; field_id = f }

module _ (c i d : Bytes) (hc : IsSegment c) (hi : IsSegment i) (hd : IsSegment d) where
  pub to_string-three : to_string (key_of c i d []) ≡ slash ∷ (c ++ (slash ∷ (i ++ (slash ∷ d))))
  unfolding to_string
  to_string-three = simp (hc.full, hi.full, hd.full, append_assoc)

  to_string-four :
      (f : Bytes)
      → is_empty f ≡ false
      → to_string (key_of c i d f) ≡ slash ∷ (c ++ (slash ∷ (i ++ (slash ∷ (d ++ (slash ∷ f))))))
  unfolding to_string
  to_string-four f hf = simp (hc.full, hi.full, hd.full, hf, append_assoc)

  read-three : new_data_store_key (to_string (key_of c i d [])) ≡ ok (key_of c i d [])
  unfolding new_data_store_key
  read-three = rw to_string-three (
      rw (split-append slash c (i ++ (slash ∷ d)) hc.plain)
        (rw (split-append slash i d hi.plain) (rw (split-Lacks slash d hd.plain))))

  read-four :
      (f : Bytes)
      → is_empty f ≡ false
      → Lacks slash f
      → new_data_store_key (to_string (key_of c i d f)) ≡ ok (key_of c i d f)
  unfolding new_data_store_key
  read-four f hf lf = rw (to_string-four f hf) (
      rw (split-append slash c (i ++ (slash ∷ (d ++ (slash ∷ f)))) hc.plain) (
        rw (split-append slash i (d ++ (slash ∷ f)) hi.plain)
          (rw (split-append slash d f hd.plain) (rw (split-Lacks slash f lf)))))

  read-any :
      (f : Bytes)
      → Lacks slash f
      → new_data_store_key (to_string (key_of c i d f)) ≡ ok (key_of c i d f)
  read-any [] l = read-three
  read-any (x ∷ xs) l = read-four (x ∷ xs) refl l

pub to_string-field :
    (c i d f : Bytes)
    → is_empty f ≡ false
    → to_string (key_of c i d f) ≡ to_string (key_of c i d []) ++ (slash ∷ f)
unfolding to_string
to_string-field c i d f h = rw h

-- A key whose collection, instance type and document are path components and whose field has no
-- slash (it may be empty) is read back from its text.
pub new_data_store_key-to_string :
    (k : DataStoreKey)
    → IsWhole k
    → Lacks slash k.field_id
    → new_data_store_key (to_string k) ≡ ok k
new_data_store_key-to_string k h f =
    read-any k.collection_id k.instance_type k.doc_key h.collection h.kind h.doc k.field_id f

-- Keys that can be read back and are written alike are the same key.
pub to_string-injective :
    (k j : DataStoreKey)
    → IsWhole k
    → Lacks slash k.field_id
    → IsWhole j
    → Lacks slash j.field_id
    → to_string k ≡ to_string j
    → k ≡ j
to_string-injective k j hk fk hj fj e = cc (
  new_data_store_key-to_string k hk fk,
  new_data_store_key-to_string j hj fj,
  ap new_data_store_key e,
)

module _ {Cid : Type 0} (cid_string : Cid → Bytes) (cid_decode : Bytes → Result Cid)
    (decode-string : (c : Cid) → cid_decode (cid_string c) ≡ ok c)
    (string-Lacks : (c : Cid) → Lacks slash (cid_string c)) where
  -- A head key with a document, a field and a Cid is read back from its text, if the text of a Cid
  -- has no slash and decodes to the Cid.
  pub new_head_store_key-head_to_string :
      (k : HeadStoreKey Cid) (c : Cid)
      → k.cid ≡ some c
      → IsSegment k.doc_key
      → IsSegment k.field_id
      → new_head_store_key cid_string cid_decode (head_to_string cid_string cid_decode k) ≡ ok k
  unfolding new_head_store_key head_to_string
  new_head_store_key-head_to_string k c e hd hf =
      simp (e, hd.full, hf.full, append_assoc)
        (rw
          (split-append slash [] (k.doc_key ++ (slash ∷ (k.field_id ++ (slash ∷ cid_string c)))) tt)
          (rw (split-append slash k.doc_key (k.field_id ++ (slash ∷ cid_string c)) hd.plain) (
            rw (split-append slash k.field_id (cid_string c) hf.plain) (
              rw (split-Lacks slash (cid_string c) (string-Lacks c))
                (rw (decode-string c) (cc e))))))

-- The collection id in a key of the P2P collections is read back from its text.
pub new_p2p-to_string :
    (id : Bytes)
    → IsSegment id
    → new_p2p_collection_key_from_string (p2p_collection_key_to_string id) ≡ ok id
unfolding new_p2p_collection_key_from_string p2p_collection_key_to_string split
new_p2p-to_string id h = rw h.full (rw (split-Lacks slash id h.plain))
