-- ===== src/Crdt/Lww/Convergence.antt =====
-- core/crdt/lwwreg.go: replicas that merge the same deltas, in any order, show the same register.
use mathlib.Core.Logic.{∥∥₁_elim}
use mathlib.Core.List.{Perm, Permᴰ}
use defradg.Prelude.{◌≡◌, ◌^◌, ◌<◌, refl, ap, sym, ◌∙◌, All, List, [], ◌∷◌}
use defradg.Keys.Distinct.{IsAddress}
use defradg.Store.{Backend, Store}
use defradg.Crdt.{LwwRegDelta, lww}
use defradg.Crdt.Lww.{LwwRegister, merge}
use defradg.Crdt.Lww.Join.{Write, join, join_comm, join_assoc}
use defradg.Crdt.Lww.Merge.{Works, Shows, write_of, merge-Shows}

-- A priority is a number of 64 bits.
pub record IsWithin64 (d : LwwRegDelta) : Type 0 where
  pub bound : d.priority < 2 ^ 64

-- The greatest of a write and the writes of deltas.
abbrev pub greatest : Write → List LwwRegDelta → Write
greatest w [] = w
greatest w (d ∷ ds) = greatest (join w (write_of d)) ds

greatest-permᴰ :
    {ds es : List LwwRegDelta} (w : Write) → Permᴰ ds es → greatest w ds ≡ greatest w es
greatest-permᴰ w Permᴰ.nil = refl
greatest-permᴰ w (Permᴰ.cons {a = d} {b = e} {l₁ = ds} {l₂ = es} p q) =
    ap (λ x. greatest (join w (write_of x)) ds) p ∙ greatest-permᴰ (join w (write_of e)) q
greatest-permᴰ w (Permᴰ.swap {a = d} {b = e} {a' = d'} {b' = e'} {l = ds} p q) =
    ap (λ x. greatest x ds)
      (join_assoc w (write_of d) (write_of e)
        ∙ (ap (join w) (join_comm (write_of d) (write_of e))
            ∙ (sym (join_assoc w (write_of e) (write_of d)) ∙ cc)))
greatest-permᴰ w (Permᴰ.trans p q) = greatest-permᴰ w p ∙ greatest-permᴰ w q

Write-set : IsSet Write
Write-set = hlevel

greatest-perm : (w : Write) {ds es : List LwwRegDelta} → Perm ds es → greatest w ds ≡ greatest w es
greatest-perm w {ds} {es} p =
    ∥∥₁_elim p (Write-set (greatest w ds) (greatest w es)) (greatest-permᴰ w)

module _ (b : Backend) (reg : LwwRegister) (works : Works b reg.key) (a : IsAddress reg.key)
    (Cid : Type 0) where
  -- Deltas merged one after another.
  unfoldable pub merge_all : List LwwRegDelta → Store → Store
  merge_all [] s = s
  merge_all (d ∷ ds) s = merge_all ds (merge b {Cid = Cid} reg (lww d) s).1

  merge_all-Shows :
      (ds : List LwwRegDelta) (s : Store) (w : Write)
      → Shows reg.key s w
      → All IsWithin64 ds
      → Shows reg.key (merge_all ds s) (greatest w ds)
  unfolding merge_all
  merge_all-Shows [] s w h small = h
  merge_all-Shows (d ∷ ds) s w h small =
      merge_all-Shows ds _ _ (merge-Shows b reg works a Cid s w d h small.0.bound).1 small.1

  -- Where the storage works at the keys of a register, whose key is of path components, two replicas
  -- that show the same write and merge the same deltas, of priorities of 64 bits, each in its own
  -- order, end by showing the same write: the greatest of the start and the deltas.
  pub merge_all_converges :
      (ds es : List LwwRegDelta) (s t : Store) (w : Write)
      → Shows reg.key s w
      → Shows reg.key t w
      → All IsWithin64 ds
      → All IsWithin64 es
      → Perm ds es
      → Shows reg.key (merge_all ds s) (greatest w ds)
        × Shows reg.key (merge_all es t) (greatest w ds)
  merge_all_converges ds es s t w hs ht small small' p =
      (merge_all-Shows ds s w hs small, rw (greatest-perm w p) (merge_all-Shows es t w ht small'))
