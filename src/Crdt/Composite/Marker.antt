-- ===== src/Crdt/Composite/Marker.antt =====
-- core/crdt/composite.go, Merge: the object marker. A document that is deleted stays deleted.
use defradg.Prelude.{◌≡◌, Bytes, [], ◌∷◌, Option, none, some, arith, ok}
use defradg.Store.{Backend, Store, find, insert, is_some}
use defradg.Store.Laws.{IsHealthy, has_healthy, put_healthy}
use defradg.Crdt.{object_marker}
use defradg.Crdt.Composite.{CompositeDag, marker_text, ensure_marker}

abbrev pub ensured : Bytes → Option Bytes → Store → Store
ensured k none s = insert k (object_marker ∷ []) s
ensured k (some m) s = s

-- An active delta writes the object marker if the document has none, and changes nothing if it has
-- one: in particular it does not bring a deleted document back.
pub ensure_marker_lem :
    (b : Backend) (c : CompositeDag) (s : Store)
    → IsHealthy b (marker_text c)
    → ensure_marker b c s ≡ (ok tt, ensured (marker_text c) (find (marker_text c) s) s)
unfolding ensure_marker is_some
ensure_marker_lem b c s h =
    rw (has_healthy b (marker_text c) s h)
      (ground (arith, put_healthy b (marker_text c) s h (object_marker ∷ [])))
