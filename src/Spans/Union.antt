-- ===== src/Spans/Union.antt =====
-- core/data.go, Compare: what each of its results says of the texts in two spans.
use defradg.Prelude.{
  ◌≡◌, Bytes, Bool, true, false, not, ◌&&◌, ◌||◌, Option, none, some, bytes_eq_iff, bytes_lt,
  bytes_lt_asymm, bytes_lt_irrefl, not_lt_trans, has_prefix, arith, Bool-cases, inl, inr,
}
use defradg.Keys.{DataStoreKey, to_string, equal}
use defradg.Spans.{
  Span, new_span, compare, compare_texts, way_of, Way, put_before, extend_start, replace, contained,
  extend_end, pass, is_adjacent,
}

-- `a ≤ b`, of texts.
abbrev pub le : Bytes → Bytes → Bool
le a b = not (bytes_lt b a)

-- What the ends of two spans are like, if they are merged in a way.
abbrev facts : Way → Bytes → Bytes → Bytes → Bytes → Bool
facts put_before a b c d = le b c
facts extend_start a b c d = le a c && le b d
facts replace a b c d = le a c && le d b
facts contained a b c d = le c a && le b d
facts extend_end a b c d = le c a && le d b
facts pass a b c d = le d a

compare_texts-facts :
    (a b c d : Bytes) (end_adjacent start_adjacent : Bool)
    → le a b ≡ true
    → le c d ≡ true
    → (has_prefix b d ≡ true → le b d ≡ true)
    → (end_adjacent ≡ true → le b d ≡ true)
    → facts (way_of (compare_texts a b c d end_adjacent start_adjacent)) a b c d ≡ true
unfolding compare_texts
compare_texts-facts a b c d ea sa ab cd prefix near = ground (
  arith,
  ab,
  cd,
  prefix,
  near,
  bytes_lt_asymm a c,
  bytes_lt_asymm b d,
  bytes_lt_asymm b c,
  bytes_eq_iff b c,
  bytes_eq_iff a c,
  bytes_eq_iff b d,
  bytes_eq_iff a d,
  bytes_lt_irrefl a,
  bytes_lt_irrefl b,
  not_lt_trans b a d,
)

-- Whether a text is in a span.
abbrev pub within : Span → Bytes → Bool
within s t = le (to_string s.start) t && bytes_lt t (to_string s.end)

-- The span that two are merged into, where they are.
abbrev pub merged : Way → Span → Span → Option Span
merged put_before s u = none
merged extend_start s u = some (new_span s.start u.end)
merged replace s u = some (new_span s.start s.end)
merged contained s u = some u
merged extend_end s u = some (new_span u.start s.end)
merged pass s u = none

-- Spans that are not merged share no text, and a merged one has all texts of both.
abbrev pub Keeps : Option Span → Span → Span → Bytes → Type 0
Keeps none s u t = (within s t && within u t) ≡ false
Keeps (some m) s u t = (within s t || within u t) ≡ true → within m t ≡ true

-- The ends of two spans are in order, and the end of the first, if it only extends that of the second
-- or is next to the second's start, is not past the second's end.
pub record Fits (s u : Span) : Type 0 where
  pub first : le (to_string s.start) (to_string s.end) ≡ true
  pub second : le (to_string u.start) (to_string u.end) ≡ true
  pub extends :
      has_prefix (to_string s.end) (to_string u.end) ≡ true
      → le (to_string s.end) (to_string u.end) ≡ true
  pub near : is_adjacent s.end u.start ≡ true → le (to_string s.end) (to_string u.end) ≡ true

equal-to_string : (k j : DataStoreKey) → equal k j ≡ true → to_string k ≡ to_string j
unfolding equal
equal-to_string k j h =
    let of_parts : Bytes → Bytes → Bytes → Bytes → Bytes = λ c i d f.
      to_string (record { collection_id = c; instance_type = i; doc_key = d; field_id = f }) in
    let c : k.collection_id ≡ j.collection_id = (bytes_eq_iff _ _).0 (ground (arith, h)) in
    let i : k.instance_type ≡ j.instance_type = (bytes_eq_iff _ _).0 (ground (arith, h)) in
    let d : k.doc_key ≡ j.doc_key = (bytes_eq_iff _ _).0 (ground (arith, h)) in
    let f : k.field_id ≡ j.field_id = (bytes_eq_iff _ _).0 (ground (arith, h)) in
    let same : of_parts k.collection_id k.instance_type k.doc_key k.field_id
        ≡ of_parts j.collection_id j.instance_type j.doc_key j.field_id =
      cc (c, i, d, f) in
    same

widen :
    (x a b y t : Bytes)
    → le x a ≡ true
    → le b y ≡ true
    → (le a t && bytes_lt t b) ≡ true
    → (le x t && bytes_lt t y) ≡ true
widen x a b y t h g w =
    ground (arith, h, g, w, not_lt_trans t a x, bytes_lt_asymm t b, not_lt_trans t y b)

apart :
    (a b c d t : Bytes)
    → le b c ≡ true
    → ((le a t && bytes_lt t b) && (le c t && bytes_lt t d)) ≡ false
apart a b c d t h = ground (arith, h, not_lt_trans t c b)

le_refl : (a : Bytes) → le a a ≡ true
le_refl a = ground (arith, bytes_lt_irrefl a)

widen_both :
    (x y : Bytes) (s u : Span) (t : Bytes)
    → le x (to_string s.start) ≡ true
    → le (to_string s.end) y ≡ true
    → le x (to_string u.start) ≡ true
    → le (to_string u.end) y ≡ true
    → (within s t || within u t) ≡ true
    → (le x t && bytes_lt t y) ≡ true
widen_both x y s u t h g h' g' w = elim (Bool-cases (within s t)) [
  | inl e ↦ widen x (to_string s.start) (to_string s.end) y t h g e
  | inr e ↦ widen x (to_string u.start) (to_string u.end) y t h' g' (ground (arith, e, w))
]

left_of : (p q : Bool) → (p && q) ≡ true → p ≡ true
left_of p q h = ground (arith, h)

right_of : (p q : Bool) → (p && q) ≡ true → q ≡ true
right_of p q h = ground (arith, h)

keeps :
    (w : Way) (s u : Span) (t : Bytes)
    → facts w (to_string s.start) (to_string s.end) (to_string u.start) (to_string u.end) ≡ true
    → Keeps (merged w s u) s u t
unfolding new_span
keeps put_before s u t h = apart _ _ _ _ t h
keeps pass s u t h =
    ground
      (arith, apart (to_string u.start) (to_string u.end) (to_string s.start) (to_string s.end) t h)
keeps extend_start s u t h =
    widen_both (to_string s.start) (to_string u.end) s u t (le_refl (to_string s.start))
      (right_of _ _ h) (left_of _ _ h) (le_refl (to_string u.end))
keeps replace s u t h =
    widen_both (to_string s.start) (to_string s.end) s u t (le_refl (to_string s.start))
      (le_refl (to_string s.end)) (left_of _ _ h) (right_of _ _ h)
keeps contained s u t h =
    widen_both (to_string u.start) (to_string u.end) s u t (left_of _ _ h) (right_of _ _ h)
      (le_refl (to_string u.start)) (le_refl (to_string u.end))
keeps extend_end s u t h =
    widen_both (to_string u.start) (to_string s.end) s u t (left_of _ _ h)
      (le_refl (to_string s.end)) (le_refl (to_string u.start)) (right_of _ _ h)

-- Of two spans whose ends are in order, where the end of the first, if it extends that of the second or
-- is next to the second's start, is not past the second's end: those that are not merged for what
-- Compare says of them share no text, and those that are become a span with every text of both.
pub compare-Keeps :
    (s u : Span) (t : Bytes) → Fits s u → Keeps (merged (way_of (compare s u)) s u) s u t
unfolding compare
compare-Keeps s u t f = elim (Bool-cases (equal s.start u.start && equal s.end u.end)) [
  | inl e ↦
      let start : to_string s.start ≡ to_string u.start =
        equal-to_string s.start u.start (left_of (equal s.start u.start) (equal s.end u.end) e) in
      let end : to_string s.end ≡ to_string u.end =
        equal-to_string s.end u.end (right_of (equal s.start u.start) (equal s.end u.end) e) in
      rw e (
        keeps contained s u t
          (ground (arith, start, end, le_refl (to_string u.start), le_refl (to_string u.end))))
  | inr e ↦ rw e (
      keeps _ s u t (
        compare_texts-facts (to_string s.start) (to_string s.end) (to_string u.start)
          (to_string u.end) (is_adjacent s.end u.start) (is_adjacent s.start u.end) f.first f.second
          f.extends f.near))
]
