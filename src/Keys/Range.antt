-- ===== src/Keys/Range.antt =====
-- core/key.go, PrefixEnd on a datastore key: the range of texts that a scan of a key covers.
use defradg.Prelude.{
  ◌≡◌, ◌↔◌, Bool, true, false, Bytes, IsBytes, All-append, [], ◌∷◌, ◌++◌, some, arith, bytes_lt,
  has_prefix, is_empty, if◌then◌else◌,
}
use defradg.Keys.{slash, DataStoreKey, to_string, prefix_end}
use defradg.Keys.PrefixEnd.{
  raise, raise-some, bytes_prefix_end_of_raise, IsMax, le_of_prefix, lt_raise_of_prefix,
  prefix_of_lt_raise,
}

-- The component that `PrefixEnd` moves: the last one that is not empty.
abbrev pub last_component : DataStoreKey → Bytes
last_component k =
    if is_empty k.field_id
    then if is_empty k.doc_key
      then if is_empty k.instance_type then k.collection_id else k.instance_type
      else k.doc_key
    else k.field_id

pub record HasBytes (k : DataStoreKey) : Type 0 where
  pub collection : IsBytes k.collection_id
  pub kind : IsBytes k.instance_type
  pub doc : IsBytes k.doc_key
  pub field : IsBytes k.field_id

raise-append : (p b e : Bytes) → raise b ≡ some e → raise (p ++ b) ≡ some (p ++ e)
unfolding raise
raise-append [] b e h = h
raise-append (x ∷ p) b e h = rw (raise-append p b e h)

raise-full : (b e : Bytes) → raise b ≡ some e → is_empty e ≡ false
unfolding raise
raise-full [] e h = cc
raise-full (x ∷ b) e h = ground arith

raise-segment :
    (p b e : Bytes) → raise b ≡ some e → raise (p ++ (slash ∷ b)) ≡ some (p ++ (slash ∷ e))
raise-segment p b e h = raise-append p (slash ∷ b) (slash ∷ e) (unfold raise in rw h)

abbrev key_of : Bytes → Bytes → Bytes → Bytes → DataStoreKey
key_of c i d f = record { collection_id = c; instance_type = i; doc_key = d; field_id = f }

raise-to_string :
    (c i d f e : Bytes)
    → raise (last_component (key_of c i d f)) ≡ some e
    → raise (to_string (key_of c i d f)) ≡ some (to_string (prefix_end (key_of c i d f)))
unfolding to_string prefix_end
raise-to_string c i d (x ∷ f) e r =
    rw (bytes_prefix_end_of_raise (x ∷ f) r) (rw (raise-full _ e r) (raise-segment _ (x ∷ f) e r))
raise-to_string c i (x ∷ d) [] e r =
    rw (bytes_prefix_end_of_raise (x ∷ d) r) (rw (raise-full _ e r) (raise-segment _ (x ∷ d) e r))
raise-to_string c (x ∷ i) [] [] e r =
    rw (bytes_prefix_end_of_raise (x ∷ i) r) (rw (raise-full _ e r) (raise-segment _ (x ∷ i) e r))
raise-to_string (x ∷ c) [] [] [] e r =
    rw (bytes_prefix_end_of_raise (x ∷ c) r) (rw (raise-full _ e r) (raise-segment [] (x ∷ c) e r))
raise-to_string [] [] [] [] e r = unfold raise in cc

IsBytes-segment :
    (p s : Bytes) → IsBytes p → IsBytes s → IsBytes (if is_empty s then p else p ++ (slash ∷ s))
IsBytes-segment p [] hp hs = hp
IsBytes-segment p (x ∷ s) hp hs = All-append _ p (slash ∷ x ∷ s) hp (omega arith, hs)

IsBytes-to_string : (k : DataStoreKey) → HasBytes k → IsBytes (to_string k)
unfolding to_string
IsBytes-to_string k h =
    IsBytes-segment _ k.field_id
      (IsBytes-segment _ k.doc_key
        (IsBytes-segment _ k.instance_type (IsBytes-segment [] k.collection_id tt h.collection)
          h.kind)
        h.doc)
      h.field

IsBytes-if : (t : Bool) (p q : Bytes) → IsBytes p → IsBytes q → IsBytes (if t then p else q)
IsBytes-if true p q hp hq = hp
IsBytes-if false p q hp hq = hq

IsBytes-last : (k : DataStoreKey) → HasBytes k → IsBytes (last_component k)
IsBytes-last k h =
    IsBytes-if (is_empty k.field_id) _ _
      (IsBytes-if (is_empty k.doc_key) _ _
        (IsBytes-if (is_empty k.instance_type) _ _ h.collection h.kind) h.doc)
      h.field

-- For a key of bytes whose last component is not all 0xff, the texts that begin with the text of the
-- key are exactly those from it up to, and without, the text of its end: a scan of this range meets
-- what is stored under the key and nothing else.
pub prefix_end_range :
    (k : DataStoreKey) (s : Bytes)
    → HasBytes k
    → IsBytes s
    → ¬ IsMax (last_component k)
    → (has_prefix s (to_string k) ≡ true)
      ↔ ((bytes_lt s (to_string k) ≡ false) × (bytes_lt s (to_string (prefix_end k)) ≡ true))
prefix_end_range k s hk hs n =
    let (e, r) = raise-some (last_component k) (IsBytes-last k hk) n in
    let up = raise-to_string k.collection_id k.instance_type k.doc_key k.field_id e r in
    let b = IsBytes-to_string k hk in
    (
      λ h. (le_of_prefix _ s h, lt_raise_of_prefix _ s _ b up h),
      λ h. prefix_of_lt_raise _ s _ b hs up h.0 h.1,
    )
