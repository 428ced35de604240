-- ===== src/Crdt/Composite/Moves.antt =====
-- core/crdt/composite.go, deleteWithPrefix: the values of a deleted document stand at its deleted
-- keys, and nowhere else.
use defradg.Prelude.{
  ◌≡◌, refl, ap, sym, ◌∙◌, Bytes, false, [], ◌∷◌, Option, none, some, arith, if◌then◌else◌,
  bytes_eq, bytes_eq_iff, bytes_eq_refl, bytes_eq_of_ne, ne_of_bytes_eq, Bool-cases, inl, inr, ◌⊎◌,
  ok,
}
use defradg.Keys.{DataStoreKey, to_string, value_key, deleted_key, with_deleted_flag}
use defradg.Keys.RoundTrip.{IsSegment, IsWhole, new_data_store_key-to_string, to_string-injective}
use defradg.Keys.Distinct.{value-IsSegment, deleted-IsSegment}
use defradg.Store.{Backend, Store, find, insert, remove, next_op}
use defradg.Store.Laws.{IsHealthy, put_healthy, delete_healthy, find-insert, find-remove}
use defradg.Crdt.Composite.{move_entries}

-- What stands at the deleted key of a field: its value, if the entries have one.
abbrev pub or_old : Option Bytes → Option Bytes → Option Bytes
or_old none old = old
or_old (some v) old = some v

abbrev pub gone : Option Bytes → Option Bytes → Option Bytes
gone none old = old
gone (some v) old = none

-- The fields of one document.
module _ (col doc : Bytes) (hc : IsSegment col) (hd : IsSegment doc) where
  abbrev pub key_at : Bytes → Bytes → DataStoreKey
  key_at i f = record { collection_id = col; instance_type = i; doc_key = doc; field_id = f }

  abbrev pub text_at : Bytes → Bytes → Bytes
  text_at i f = to_string (key_at i f)

  pub key_at-IsWhole : (i f : Bytes) → IsSegment i → IsWhole (key_at i f)
  key_at-IsWhole i f hi = record { collection = hc; kind = hi; doc = hd }

  text_at-eq :
      (i f g : Bytes)
      → IsSegment i
      → IsSegment f
      → IsSegment g
      → bytes_eq (text_at i f) (text_at i g) ≡ bytes_eq f g
  text_at-eq i f g hi hf hg = elim (Bool-cases (bytes_eq f g)) [
    | inl e ↦ rw e (rw ((bytes_eq_iff f g).0 e) (bytes_eq_refl (text_at i g)))
    | inr e ↦ rw e (
        bytes_eq_of_ne _ _ λ h. ne_of_bytes_eq f g e (
          ap (λ (k : DataStoreKey). k.field_id)
            (to_string-injective (key_at i f) (key_at i g) (key_at-IsWhole i f hi) hf.plain
              (key_at-IsWhole i g hi) hg.plain h)))
  ]

  value-ne-deleted :
      (f g : Bytes)
      → IsSegment f
      → IsSegment g
      → bytes_eq (text_at value_key f) (text_at deleted_key g) ≡ false
  value-ne-deleted f g hf hg = bytes_eq_of_ne _ _ λ h. ne_of_bytes_eq value_key deleted_key refl (
      ap (λ (k : DataStoreKey). k.instance_type)
        (to_string-injective (key_at value_key f) (key_at deleted_key g)
          (key_at-IsWhole value_key f value-IsSegment) hf.plain
          (key_at-IsWhole deleted_key g deleted-IsSegment) hg.plain h))

  -- Entries that hold values of fields of the document, no field twice.
  abbrev pub Values : Store → Type 0
  Values [] = Unit {0}
  Values ((j, v) ∷ entries) =
      ((f : Bytes) × IsSegment f × (j ≡ text_at value_key f) × (find j entries ≡ none))
      × Values entries

  -- The storage works at the keys of the document's fields.
  pub record WorksAt (b : Backend) : Type 0 where
    pub at_field : (i f : Bytes) → IsSegment i → IsSegment f → IsHealthy b (text_at i f)

  -- The store after the value of one field is moved.
  abbrev moved : Bytes → Bytes → Store → Store
  moved f v s = remove (text_at value_key f) (insert (text_at deleted_key f) v s)

  move_entries_step :
      (b : Backend) (w : WorksAt b) (f v : Bytes) (entries s : Store)
      → IsSegment f
      → move_entries b ((text_at value_key f, v) ∷ entries) s ≡ move_entries b entries (moved f v s)
  unfolding move_entries with_deleted_flag
  move_entries_step b w f v entries s hf =
      rw ((w.at_field value_key f value-IsSegment hf).works next_op) (
        rw
          (new_data_store_key-to_string (key_at value_key f)
            (key_at-IsWhole value_key f value-IsSegment) hf.plain)
          (rw (put_healthy b _ s (w.at_field deleted_key f deleted-IsSegment hf) v) (
            rw (
              delete_healthy b _ (insert (text_at deleted_key f) v s)
                (w.at_field value_key f value-IsSegment hf)))))

  module _ (f g v : Bytes) (entries s : Store) (hf : IsSegment f) (hg : IsSegment g) where
    deleted-ne-value : bytes_eq (text_at deleted_key g) (text_at value_key f) ≡ false
    deleted-ne-value = bytes_eq_of_ne _ _ λ h.
        ne_of_bytes_eq (text_at value_key f) (text_at deleted_key g) (value-ne-deleted f g hf hg)
          (sym h)

    step_value :
        gone (find (text_at value_key f) entries) (find (text_at value_key f) (moved g v s))
        ≡ gone
            (find (text_at value_key f) ((text_at value_key g, v) ∷ entries))
            (find (text_at value_key f) s)
    step_value =
        rw
          (find-remove (text_at value_key g) (text_at value_key f)
            (insert (text_at deleted_key g) v s))
          (rw (find-insert (text_at deleted_key g) (text_at value_key f) v s) (
            rw deleted-ne-value
              (unfold find in rw (text_at-eq value_key g f value-IsSegment hg hf) (ground arith))))

    step_deleted :
        find (text_at value_key g) entries ≡ none
        → or_old (find (text_at value_key f) entries) (find (text_at deleted_key f) (moved g v s))
          ≡ or_old
              (find (text_at value_key f) ((text_at value_key g, v) ∷ entries))
              (find (text_at deleted_key f) s)
    step_deleted once =
        rw
          (find-remove (text_at value_key g) (text_at deleted_key f)
            (insert (text_at deleted_key g) v s))
          (rw (find-insert (text_at deleted_key g) (text_at deleted_key f) v s) (
            rw (value-ne-deleted g f hg hf) (
              rw (text_at-eq deleted_key g f deleted-IsSegment hg hf) (
                unfold find in
                rw (text_at-eq value_key g f value-IsSegment hg hf) (split_field once)))))
      where
        split_field :
            find (text_at value_key g) entries ≡ none
            → or_old
                (find (text_at value_key f) entries)
                (if bytes_eq g f then some v else find (text_at deleted_key f) s)
              ≡ or_old
                  (if bytes_eq g f then some v else find (text_at value_key f) entries)
                  (find (text_at deleted_key f) s)
        split_field o = elim (Bool-cases (bytes_eq g f)) [
          | inl h ↦ rw h (rw (← (bytes_eq_iff g f).0 h) (rw o))
          | inr h ↦ rw h
        ]

  -- A key that is no value key and no deleted key of a field of the document.
  pub record IsOther (j : Bytes) : Type 0 where
    pub apart :
        (i f : Bytes)
        → (i ≡ value_key) ⊎ (i ≡ deleted_key)
        → IsSegment f
        → bytes_eq (text_at i f) j ≡ false

  find-moved_other :
      (j g v : Bytes) (s : Store) → IsSegment g → IsOther j → find j (moved g v s) ≡ find j s
  find-moved_other j g v s hg o =
      rw (find-remove (text_at value_key g) j (insert (text_at deleted_key g) v s)) (
        rw (o.apart value_key g (inl refl) hg) (
          rw (find-insert (text_at deleted_key g) j v s)
            (rw (o.apart deleted_key g (inr refl) hg))))

  pub record Moved (entries s t : Store) : Type 0 where
    pub at_value :
        (f : Bytes)
        → IsSegment f
        → find (text_at value_key f) t
          ≡ gone (find (text_at value_key f) entries) (find (text_at value_key f) s)
    pub at_deleted :
        (f : Bytes)
        → IsSegment f
        → find (text_at deleted_key f) t
          ≡ or_old (find (text_at value_key f) entries) (find (text_at deleted_key f) s)
    pub at_other : (j : Bytes) → IsOther j → find j t ≡ find j s

  pub move_entries-Moved :
      (b : Backend) (w : WorksAt b) (entries s : Store)
      → Values entries
      → ((move_entries b entries s).0 ≡ ok tt) × Moved entries s (move_entries b entries s).1
  move_entries-Moved b w [] s h =
      unfold move_entries find in
      (refl, record { at_value = λ f hf. refl; at_deleted = λ f hf. refl; at_other = λ j o. refl })
  move_entries-Moved b w ((j, v) ∷ entries) s ((g, hg, e, once), h) =
      let (done, m) = move_entries-Moved b w entries (moved g v s) h in
      rw e (
        rw (move_entries_step b w g v entries s hg) (
          done,
          record {
            at_value = λ f hf. m.at_value f hf ∙ step_value f g v entries s hf hg;
            at_deleted =
                λ f hf. m.at_deleted f hf ∙ step_deleted f g v entries s hf hg (rw e at once);
            at_other = λ i o. m.at_other i o ∙ find-moved_other i g v s hg o;
          },
        ))
