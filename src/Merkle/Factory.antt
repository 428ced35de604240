-- ===== src/Merkle/Factory.antt =====
-- merkle/crdt/factory.go: the constructors of CRDTs by their type, with the stores that they are given.
-- A store, a channel of updates and a CRDT are of any types.
use defradg.Prelude.{
  ℕ, ◌≡◌, refl, Bytes, List, [], ◌∷◌, Option, none, some, arith, ◌==◌, if◌then◌else◌, Result, ok,
  err, factory_type_no_exist,
}
use defradg.Keys.{DataStoreKey}
use defradg.Collection.{CType, none_crdt, lww_register, object, composite}

-- `nil` is none.
record MultiStore (Store DagStore : Type 0) : Type 0 where
  pub rootstore : Option Store
  pub datastore : Option Store
  pub headstore : Option Store
  pub dagstore : Option DagStore
  pub systemstore : Option Store

-- The stores, the schema version, the channel of updates, and the name of the field; then the key.
abbrev MerkleCrdtFactory : Type 0 → Type 0 → Type 0 → Type 0 → Type 0
MerkleCrdtFactory Store DagStore Channel Crdt =
    MultiStore Store DagStore → Bytes → Channel → Bytes → DataStoreKey → Crdt

record Factory (Store DagStore Channel Crdt : Type 0) : Type 0 where
  pub crdts : List (CType × MerkleCrdtFactory Store DagStore Channel Crdt)
  pub multistore : Option (MultiStore Store DagStore)

-- The number of a type in its enumeration.
abbrev pub ctype_number : CType → ℕ
ctype_number none_crdt = 0
ctype_number lww_register = 1
ctype_number object = 2
ctype_number composite = 3

module _ {Fn : Type 0} where
  -- `factory.crdts[t] = fn`
  unfoldable set_crdt : CType → Fn → List (CType × Fn) → List (CType × Fn)
  set_crdt t fn [] = (t, fn) ∷ []
  set_crdt t fn ((u, g) ∷ crdts) =
      if ctype_number u == ctype_number t then (t, fn) ∷ crdts else (u, g) ∷ set_crdt t fn crdts

  unfoldable crdt_at : CType → List (CType × Fn) → Option Fn
  crdt_at t [] = none
  crdt_at t ((u, g) ∷ crdts) =
      let rest = crdt_at t crdts in if ctype_number u == ctype_number t then some g else rest

  abbrev registered : Option Fn → Result Fn
  registered none = err factory_type_no_exist
  registered (some fn) = ok fn

  crdt_at-set_crdt :
      (t u : CType) (fn : Fn) (crdts : List (CType × Fn))
      → crdt_at u (set_crdt t fn crdts)
        ≡ (if ctype_number t == ctype_number u then some fn else crdt_at u crdts)
  unfolding crdt_at set_crdt
  crdt_at-set_crdt t u fn [] = refl
  crdt_at-set_crdt t u fn ((v, g) ∷ crdts) = ground (arith, crdt_at-set_crdt t u fn crdts)

module _ {Store DagStore : Type 0} where
  abbrev no_stores : MultiStore Store DagStore
  no_stores = record {
    rootstore = none;
    datastore = none;
    headstore = none;
    dagstore = none;
    systemstore = none;
  }

  -- A factory as a MultiStore: its methods of that interface.
  unfoldable stores_of : Option (MultiStore Store DagStore) → MultiStore Store DagStore
  stores_of none = no_stores
  stores_of (some m) = record m { rootstore = none }

module _ {Store DagStore Channel Crdt : Type 0} where
  unfoldable new_factory : Option (MultiStore Store DagStore) → Factory Store DagStore Channel Crdt
  new_factory stores = record { crdts = []; multistore = stores }

  unfoldable register :
      Factory Store DagStore Channel Crdt
      → CType
      → MerkleCrdtFactory Store DagStore Channel Crdt
      → Factory Store DagStore Channel Crdt
  register f t fn = record f { crdts = set_crdt t fn f.crdts }

  unfoldable get_registered_factory :
      Factory Store DagStore Channel Crdt
      → CType
      → Result (MerkleCrdtFactory Store DagStore Channel Crdt)
  get_registered_factory f t = registered (crdt_at t f.crdts)

  abbrev applied :
      Result (MerkleCrdtFactory Store DagStore Channel Crdt)
      → MultiStore Store DagStore
      → Bytes
      → Channel
      → DataStoreKey
      → Bytes
      → Result Crdt
  applied (err e) stores version channel key name = err e
  applied (ok fn) stores version channel key name = ok (fn stores version channel name key)

  unfoldable instance_with_stores :
      Factory Store DagStore Channel Crdt
      → MultiStore Store DagStore
      → Bytes
      → Channel
      → CType
      → DataStoreKey
      → Bytes
      → Result Crdt
  instance_with_stores f stores version channel t key name =
      applied (get_registered_factory f t) stores version channel key name

  -- `Instance`
  unfoldable new_instance :
      Factory Store DagStore Channel Crdt
      → Bytes
      → Channel
      → CType
      → DataStoreKey
      → Bytes
      → Result Crdt
  new_instance f version channel t key name =
      applied (get_registered_factory f t) (stores_of f.multistore) version channel key name

  -- `SetStores`, and `WithStores` of a copy.
  unfoldable with_stores :
      Factory Store DagStore Channel Crdt
      → Option (MultiStore Store DagStore)
      → Factory Store DagStore Channel Crdt
  with_stores f stores = record f { multistore = stores }

  -- An instance is made by what was registered last for its type.
  instance_with_stores-register :
      (f : Factory Store DagStore Channel Crdt) (t u : CType)
      (fn : MerkleCrdtFactory Store DagStore Channel Crdt) (stores : MultiStore Store DagStore)
      (version : Bytes) (channel : Channel) (key : DataStoreKey) (name : Bytes)
      → instance_with_stores (register f t fn) stores version channel u key name ≡ (
          if ctype_number t == ctype_number u
          then ok (fn stores version channel name key)
          else instance_with_stores f stores version channel u key name)
  unfolding instance_with_stores get_registered_factory register
  instance_with_stores-register f t u fn stores version channel key name =
      rw (crdt_at-set_crdt t u fn f.crdts) (ground arith)
