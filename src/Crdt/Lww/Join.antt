-- ===== src/Crdt/Lww/Join.antt =====
-- What a last-writer-wins register promises: its state is the greatest of the writes that it has
-- seen, by priority and then by value. Taking the greater is a semilattice.
use defradg.Prelude.{
  ℕ, ◌≡◌, Bytes, Bool, true, false, ◌||◌, ◌&&◌, arith, if◌then◌else◌, ltb, ◌==◌, bytes_lt,
  bytes_lt_asymm, bytes_lt_trans, bytes_lt_irrefl, bytes_lt_antisymm,
}

-- A priority and a value.
abbrev pub Write : Type 0
Write = ℕ × Bytes

unfoldable pub later : Write → Write → Bool
later (p, v) (q, w) = ltb p q || (p == q && bytes_lt v w)

unfoldable pub join : Write → Write → Write
join a c = if later a c then c else a

later_irrefl : (a : Write) → later a a ≡ false
unfolding later
later_irrefl (p, v) = ground (arith, bytes_lt_irrefl v)

later_asymm : (a c : Write) → later a c ≡ true → later c a ≡ false
unfolding later
later_asymm (p, v) (q, w) h = ground (arith, bytes_lt_asymm v w)

later_trans : (a c d : Write) → later a c ≡ true → later c d ≡ true → later a d ≡ true
unfolding later
later_trans (p, v) (q, w) (r, x) h k = ground (arith, bytes_lt_trans v w x)

later_antisymm : (a c : Write) → later a c ≡ false → later c a ≡ false → a ≡ c
unfolding later
later_antisymm (p, v) (q, w) h k = ground (arith, bytes_lt_antisymm v w)

pub join_idem : (a : Write) → join a a ≡ a
unfolding join
join_idem a = ground arith

pub join_comm : (a c : Write) → join a c ≡ join c a
unfolding join
join_comm a c = ground (arith, later_asymm a c, later_asymm c a, later_antisymm a c)

pub join_assoc : (a c d : Write) → join (join a c) d ≡ join a (join c d)
unfolding join
join_assoc a c d = ground (
  arith,
  later_trans a c d,
  later_trans a d c,
  later_trans c a d,
  later_asymm a c,
  later_asymm a d,
  later_asymm c d,
  later_asymm d c,
  later_asymm d a,
  later_antisymm c d,
  later_antisymm a d,
  later_trans d a c,
  later_trans d c a,
)
