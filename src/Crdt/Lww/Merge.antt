-- ===== src/Crdt/Lww/Merge.antt =====
-- core/crdt/lwwreg.go, Merge: it takes the greater of the state and the delta, whatever order the
-- deltas come in.
use defradg.Prelude.{
  ℕ, ◌≡◌, ◌≢◌, ◌^◌, ◌<◌, refl, Bytes, [], ◌∷◌, Option, none, some, arith, if◌then◌else◌, bytes_eq,
  ne_of_bytes_eq, bytes_eq_of_ne, bytes_eq_refl, Bool-cases, inl, inr, ok,
}
use defradg.Keys.{
  value_key, priority_key, deleted_key, DataStoreKey, to_string, with_value_flag, with_deleted_flag,
  with_priority_flag, to_primary_data_store_key, primary_to_string,
}
use defradg.Keys.Distinct.{
  IsAddress, kinds_ne, kind-ne-marker, value-IsSegment, priority-IsSegment, deleted-IsSegment,
}
use defradg.Varint.{put_uvarint, uvarint-put_uvarint}
use defradg.Store.{Backend, Store, find, insert, lookup_result}
use defradg.Store.Laws.{IsHealthy, get_healthy, put_healthy, find-insert}
use defradg.Crdt.{
  LwwRegDelta, lww, get_priority, set_priority, read_priority, lww_register, deleted_object_marker,
}
use defradg.Crdt.Lww.{LwwRegister, marker_of, current_value, place, store_value, set_value, merge}
use defradg.Crdt.Lww.Join.{Write, later, join}

-- Where the parts of a register stand in the store.
abbrev pub priority_text : DataStoreKey → Bytes
priority_text k = to_string (with_priority_flag k)

abbrev pub marker_text : DataStoreKey → Bytes
marker_text k = primary_to_string (to_primary_data_store_key k)

abbrev pub marker_bytes : Option Bytes → Bytes
marker_bytes none = []
marker_bytes (some m) = m

abbrev pub value_text : DataStoreKey → Store → Bytes
value_text k s = to_string (place k (marker_bytes (find (marker_text k) s)))

-- The register at `k` shows a priority and a value in the store.
pub record Shows (k : DataStoreKey) (s : Store) (w : Write) : Type 0 where
  pub prio : read_priority (lookup_result (find (priority_text k) s)) ≡ ok w.0
  pub val : current_value (lookup_result (find (value_text k s) s)) ≡ w.1

-- The storage works at the keys of a register.
pub record Works (b : Backend) (k : DataStoreKey) : Type 0 where
  pub at_priority : IsHealthy b (priority_text k)
  pub at_marker : IsHealthy b (marker_text k)
  pub at_value : IsHealthy b (to_string (with_value_flag k))
  pub at_deleted : IsHealthy b (to_string (with_deleted_flag (with_value_flag k)))

marker_of_found : (o : Option Bytes) → marker_of (lookup_result o) ≡ ok (marker_bytes o)
unfolding lookup_result
marker_of_found none = refl
marker_of_found (some m) = refl

at_place :
    (b : Backend) (k : DataStoreKey) (m : Bytes) → Works b k → IsHealthy b (to_string (place k m))
at_place b k m w = elim (Bool-cases (bytes_eq m (deleted_object_marker ∷ []))) [
  | inl e ↦ rw e w.at_deleted
  | inr e ↦ rw e w.at_value
]

module _ (b : Backend) (reg : LwwRegister) (s : Store) (works : Works b reg.key) where
  abbrev pub written : Bytes → ℕ → Store
  written val priority =
      insert (priority_text reg.key) (put_uvarint priority)
        (insert (value_text reg.key s) (lww_register ∷ val) s)

  store_value_works :
      (val : Bytes) (priority : ℕ)
      → store_value b reg
          (place reg.key (marker_bytes (find (marker_text reg.key) s)))
          val
          priority
          s
        ≡ (ok tt, written val priority)
  unfolding store_value set_priority
  store_value_works val priority =
      rw
        (put_healthy b _ s (at_place b reg.key (marker_bytes (find (marker_text reg.key) s)) works)
          (lww_register ∷ val))
        (rw (
          put_healthy b _ (insert (value_text reg.key s) (lww_register ∷ val) s) works.at_priority
            (put_uvarint priority)))

  pub set_value_works :
      (w : Write) (val : Bytes) (priority : ℕ)
      → Shows reg.key s w
      → set_value b reg val priority s
        ≡ (if later w (priority, val) then (ok tt, written val priority) else (ok tt, s))
  unfolding set_value get_priority later
  set_value_works w val priority h = rw (get_healthy b _ s works.at_priority) (
      rw h.prio (
        rw (get_healthy b _ s works.at_marker) (
          rw (marker_of_found (find (marker_text reg.key) s)) (
            ground (
              arith,
              h.val,
              get_healthy b _ s
                  (at_place b reg.key (marker_bytes (find (marker_text reg.key) s)) works),
              store_value_works val priority,
            )))))

module _ (k : DataStoreKey) (m : Bytes) (a : IsAddress k) where
  pub place-ne-priority : priority_text k ≢ to_string (place k m)
  unfolding with_value_flag with_priority_flag with_deleted_flag
  place-ne-priority = elim (Bool-cases (bytes_eq m (deleted_object_marker ∷ []))) [
    | inl e ↦ rw e (
        kinds_ne k priority_key deleted_key a priority-IsSegment deleted-IsSegment
          (ne_of_bytes_eq _ _ refl))
    | inr e ↦ rw e (
        kinds_ne k priority_key value_key a priority-IsSegment value-IsSegment
          (ne_of_bytes_eq _ _ refl))
  ]

  place-ne-marker : to_string (place k m) ≢ marker_text k
  unfolding with_value_flag with_deleted_flag
  place-ne-marker = elim (Bool-cases (bytes_eq m (deleted_object_marker ∷ []))) [
    | inl e ↦ rw e (kind-ne-marker k deleted_key a deleted-IsSegment (ne_of_bytes_eq _ _ refl))
    | inr e ↦ rw e (kind-ne-marker k value_key a value-IsSegment (ne_of_bytes_eq _ _ refl))
  ]

  priority-ne-marker : priority_text k ≢ marker_text k
  unfolding with_priority_flag
  priority-ne-marker = kind-ne-marker k priority_key a priority-IsSegment (ne_of_bytes_eq _ _ refl)

abbrev pub write_of : LwwRegDelta → Write
write_of d = (d.priority, d.payload)

module _ (b : Backend) (reg : LwwRegister) (works : Works b reg.key) (a : IsAddress reg.key) where
  pub find-written :
      (s : Store) (val : Bytes) (priority : ℕ) (j : Bytes)
      → find j (written b reg s works val priority) ≡ (
          if bytes_eq (priority_text reg.key) j
          then some (put_uvarint priority)
          else if bytes_eq (value_text reg.key s) j
          then some (lww_register ∷ val)
          else find j s)
  find-written s val priority j = simp find-insert

  pub marker-written :
      (s : Store) (val : Bytes) (priority : ℕ)
      → find (marker_text reg.key) (written b reg s works val priority)
        ≡ find (marker_text reg.key) s
  marker-written s val priority = rw (find-written s val priority (marker_text reg.key)) (
      rw (bytes_eq_of_ne _ _ (priority-ne-marker reg.key [] a)) (
        rw (
          bytes_eq_of_ne _ _
            (place-ne-marker reg.key (marker_bytes (find (marker_text reg.key) s)) a))))

  Shows-written :
      (s : Store) (val : Bytes) (priority : ℕ)
      → priority < 2 ^ 64
      → Shows reg.key (written b reg s works val priority) (priority, val)
  Shows-written s val priority small = record {
    prio = rw (find-written s val priority (priority_text reg.key)) (
        rw (bytes_eq_refl (priority_text reg.key))
          (unfold lookup_result in rw (uvarint-put_uvarint priority small, read_priority)));
    val = rw (marker-written s val priority) (
        rw (find-written s val priority (value_text reg.key s)) (
          rw
            (bytes_eq_of_ne _ _
              (place-ne-priority reg.key (marker_bytes (find (marker_text reg.key) s)) a))
            (rw (bytes_eq_refl (value_text reg.key s)) (unfold lookup_result in refl))));
  }

  -- Where the storage works at the keys of a register, whose key is of path components, and the
  -- register can be read, a merge of a delta with a priority of 64 bits succeeds, and the register
  -- then shows the greater of what it showed and the delta: by priority, and by value at one priority.
  pub merge-Shows :
      (Cid : Type 0) (s : Store) (w : Write) (d : LwwRegDelta)
      → Shows reg.key s w
      → d.priority < 2 ^ 64
      → ((merge b {Cid = Cid} reg (lww d) s).0 ≡ ok tt)
        × Shows reg.key (merge b {Cid = Cid} reg (lww d) s).1 (join w (write_of d))
  unfolding merge join
  merge-Shows Cid s w d h small = elim (Bool-cases (later w (write_of d))) [
    | inl e ↦
        rw (set_value_works b reg s works w d.payload d.priority h)
          (rw e (refl, Shows-written s d.payload d.priority small))
    | inr e ↦ rw (set_value_works b reg s works w d.payload d.priority h) (rw e (refl, h))
  ]

  -- A merge writes at most the priority and the value of its own register.
  pub merge-frame :
      (Cid : Type 0) (s : Store) (w : Write) (d : LwwRegDelta) (j : Bytes)
      → Shows reg.key s w
      → priority_text reg.key ≢ j
      → value_text reg.key s ≢ j
      → find j (merge b {Cid = Cid} reg (lww d) s).1 ≡ find j s
  unfolding merge
  merge-frame Cid s w d j h np nv = elim (Bool-cases (later w (write_of d))) [
    | inl e ↦ rw (set_value_works b reg s works w d.payload d.priority h) (
        rw e (
          rw (find-written s d.payload d.priority j)
            (rw (bytes_eq_of_ne _ _ np) (rw (bytes_eq_of_ne _ _ nv)))))
    | inr e ↦ rw (set_value_works b reg s works w d.payload d.priority h) (rw e)
  ]
