-- ===== src/Crdt/Priority.antt =====
-- core/crdt/base.go: the priority that is set at a key, and the priorities that are read then.
use defradg.Prelude.{
  ℕ, ◌^◌, ◌<◌, ◌≡◌, refl, Bytes, bytes_eq, ok, if◌then◌else◌, Bool-cases, inl, inr,
}
use defradg.Keys.{DataStoreKey, to_string, with_priority_flag}
use defradg.Varint.{put_uvarint, uvarint-put_uvarint}
use defradg.Store.{Backend, Store, insert, lookup_result}
use defradg.Store.Laws.{IsHealthy, get_healthy, put_healthy, find-insert}
use defradg.Crdt.{get_priority, set_priority, read_priority}

abbrev at_priority : DataStoreKey → Bytes
at_priority key = to_string (with_priority_flag key)

-- Where the storage works at the priorities of two keys: a priority of 64 bits is set at one of them, and
-- getPriority then reads it at each key whose priority is stored under the same text, and what it read
-- before, an error included, at each other key.
pub get_priority-set_priority :
    (b : Backend) (key other : DataStoreKey) (priority : ℕ) (s : Store)
    → priority < 2 ^ 64
    → IsHealthy b (to_string (with_priority_flag key))
    → IsHealthy b (to_string (with_priority_flag other))
    → ((set_priority b key priority s).0 ≡ ok tt)
      × ((get_priority b other (set_priority b key priority s).1).0 ≡ (
          if bytes_eq (to_string (with_priority_flag key)) (to_string (with_priority_flag other))
          then ok priority
          else (get_priority b other s).0))
unfolding get_priority set_priority lookup_result
get_priority-set_priority b key other priority s small h k =
    rw
      (
        put_healthy b (at_priority key) s h (put_uvarint priority),
        get_healthy b (at_priority other) s k,
        get_healthy b (at_priority other) (insert (at_priority key) (put_uvarint priority) s) k,
        find-insert (at_priority key) (at_priority other) (put_uvarint priority) s,
      )
      (
        refl,
        elim (Bool-cases (bytes_eq (at_priority key) (at_priority other))) [
          | inl e ↦ rw e (rw (uvarint-put_uvarint priority small, read_priority) refl)
          | inr e ↦ rw e refl
        ],
      )
