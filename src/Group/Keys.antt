-- ===== src/Group/Keys.antt =====
-- planner/arbitrary_join.go: rows of different values under one key.
use defradg.Prelude.{Bytes, [], ◌∷◌, ◌++◌, append_assoc, ◌≡◌, refl, Bool}
use defradg.Prelude.Decimal.{sprint}
use defradg.Group.{field_at, generate_key, underscore}

-- The end of a value at the field 0 and the start of that at the field 1, in a key.
abbrev pub next_field : Bytes
next_field = underscore ++ (sprint 1 ++ underscore)

module _ {V : Type 0} (nil : V) (is_nil : V → Bool) (text_of : V → Bytes) where
  -- For all texts x, y and z: a row whose first value has the text x, next_field, y, and whose second has
  -- the text z, has under the fields 0 and 1 the key of a row whose first value has the text x, and whose
  -- second has the text y, next_field, z.
  pub generate_key-shared :
      (x y z : Bytes) (a b c d : V)
      → text_of a ≡ x ++ (next_field ++ y)
      → text_of b ≡ z
      → text_of c ≡ x
      → text_of d ≡ y ++ (next_field ++ z)
      → generate_key nil is_nil text_of (a ∷ b ∷ []) (0 ∷ 1 ∷ [])
        ≡ generate_key nil is_nil text_of (c ∷ d ∷ []) (0 ∷ 1 ∷ [])
  unfolding generate_key field_at sprint
  generate_key-shared x y z a b c d ea eb ec ed =
      rw (ea, eb, ec, ed, append_assoc x, append_assoc y) refl
