-- ===== src/Sequence/Tests.antt =====
-- db/sequence.go on concrete stores, and the theorems of Sequence at them.
use defradg.Prelude.{◌≡◌, refl, Bytes, codes, false, [], arith, ok}
use defradg.Prelude.Exec.{◌>>=◌}
use defradg.Store.{Backend, find}
use defradg.Store.Laws.{IsHealthy}
use defradg.Sequence.{put_uint64, uint64, Sequence, ds_key, get_sequence}
use defradg.Sequence.Next.{draw, draw-get_sequence, following, uint64-put_uint64}

abbrev sound : Backend
sound = record { new_key = λ k. k; fails = λ o k. false }

IsHealthy-sound : (k : Bytes) → IsHealthy sound k
IsHealthy-sound k = record { works = λ o. refl; clean = refl }

abbrev ids : Sequence
ids = record { key = codes "collection"; val = 0 }

three_bytes : uint64 (put_uint64 66051) ≡ ok 66051
unfolding uint64 put_uint64
three_bytes = refl

uint64-put_uint64_example : uint64 (put_uint64 66051) ≡ ok 66051
uint64-put_uint64_example = uint64-put_uint64 66051 (omega arith)

draw-get_sequence_example :
    ((get_sequence sound (codes "collection") >>= draw sound 3) []).0 ≡ ok (following 3 0)
unfolding find
draw-get_sequence_example =
    draw-get_sequence sound 3 (codes "collection") [] refl (IsHealthy-sound (ds_key ids))
      (omega arith) refl
