-- ===== src/Store/Txn.antt =====
-- datastore/txn.go: a transaction with functions that are run when it is committed, or when that
-- fails. `World` is the state of everything; the transaction below is any.
use defradg.Prelude.{◌≡◌, refl, ap, List, [], ◌∷◌, ◌++◌, Option, none, some, Result, ok, err}

-- `ds.Txn`, of go-datastore, as far as it is used here.
record DsTxn (World : Type 0) : Type 0 where
  pub commit : World → Result (Unit {0}) × World
  pub discard : World → World

-- `nil` is none.
record Txn (World : Type 0) : Type 0 where
  pub t : DsTxn World
  pub success_fns : List (World → World)
  pub error_fns : List (World → World)

module _ {World : Type 0} where
  -- The end of `NewTxnFrom`, over the transaction that the root store gives.
  unfoldable new_txn_from : Result (DsTxn World) → Result (Txn World)
  new_txn_from (err e) = err e
  new_txn_from (ok t) = ok (record { t = t; success_fns = []; error_fns = [] })

  unfoldable on_success : Txn World → Option (World → World) → Txn World
  on_success x none = x
  on_success x (some fn) = record x { success_fns = x.success_fns ++ (fn ∷ []) }

  unfoldable on_error : Txn World → Option (World → World) → Txn World
  on_error x none = x
  on_error x (some fn) = record x { error_fns = x.error_fns ++ (fn ∷ []) }

  unfoldable run_fns : List (World → World) → World → World
  run_fns [] w = w
  run_fns (fn ∷ fns) w = run_fns fns (fn w)

  abbrev ended : Txn World → Result (Unit {0}) × World → Result (Unit {0}) × World
  ended x (err e, w) = (err e, run_fns x.error_fns w)
  ended x (ok _, w) = (ok tt, run_fns x.success_fns w)

  unfoldable commit : Txn World → World → Result (Unit {0}) × World
  commit x w = ended x (x.t.commit w)

  unfoldable discard : Txn World → World → World
  discard x w = x.t.discard w

  -- The Sync and the Close of a ShimTxnStore.
  unfoldable sync : DsTxn World → World → Result (Unit {0}) × World
  sync t w = t.commit w

  unfoldable close : DsTxn World → World → Result (Unit {0}) × World
  close t w = (ok tt, t.discard w)

  run_fns-append :
      (fs : List (World → World)) (f : World → World) (w : World)
      → run_fns (fs ++ (f ∷ [])) w ≡ f (run_fns fs w)
  unfolding run_fns
  run_fns-append [] f w = refl
  run_fns-append (g ∷ fs) f w = run_fns-append fs f (g w)

  -- What follows a commit: `f` where it has succeeded, and `g` where it has failed.
  abbrev then_run :
      (World → World) → (World → World) → Result (Unit {0}) × World → Result (Unit {0}) × World
  then_run f g (err e, w) = (err e, g w)
  then_run f g (ok _, w) = (ok tt, f w)

  -- Functions that are registered run behind those before them, for the end that they wait for, and
  -- not for the other.
  commit-on_success :
      (x : Txn World) (f g : World → World) (w : World)
      → commit (on_error (on_success x (some f)) (some g)) w ≡ then_run f g (commit x w)
  unfolding commit on_success on_error
  commit-on_success x f g w = after (x.t.commit w)
    where
      after :
          (r : Result (Unit {0}) × World)
          → ended (on_error (on_success x (some f)) (some g)) r ≡ then_run f g (ended x r)
      after (err e, v) = ap (λ u. (err e, u)) (run_fns-append x.error_fns g v)
      after (ok _, v) = ap (λ u. (ok tt, u)) (run_fns-append x.success_fns f v)
