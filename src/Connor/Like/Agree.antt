-- ===== src/Connor/Like/Agree.antt =====
-- connor/like.go: the patterns that like reads as SQL does, and one that it does not.
use defradg.Prelude.{
  ℕ, ◌+◌, ◌-◌, ◌≤◌, ◌≡◌, ◌≢◌, refl, sym, ap, ◌∙◌, Bytes, Bool, true, false, not, ◌&&◌, [], ◌∷◌,
  ◌++◌, arith, length, drop, length-append, append-nil, leb, if◌then◌else◌, bytes_eq, has_prefix,
  bytes_eq_refl, Lacks, split, split-append, split-Lacks, ok,
}
use defradg.Connor.Value.{Std, text}
use defradg.Connor.Like.{
  percent, has_suffix, contains, trim_front, trim_back, like_parts, like_text, like,
}
use defradg.Connor.Like.Pattern.{
  matches, matches-sign, matches-Lacks, matches-prefix, matches-suffix, matches-starts,
  matches-contains, trim_back-append, trim_back-Lacks, has_suffix-drop,
}

like_text_of :
    (cn d : Bytes) (front back : Bool) (cn1 cn2 : Bytes)
    → 2 ≤ length cn
    → trim_front cn ≡ (front, cn1)
    → trim_back cn1 ≡ (back, cn2)
    → like_text cn d
      ≡ like_parts front back (if not front && not back then split percent cn2 else []) cn2 d
unfolding like_text
like_text_of cn d front back cn1 cn2 l f b =
    let e : leb 2 (length cn) ≡ true = ground arith in rw (e, f, b) refl

trim_back-percent : (s : Bytes) → trim_back (s ++ percent ∷ []) ≡ (true, s)
trim_back-percent s = rw (trim_back-append s percent [], append-nil s) refl

trim_front-Lacks : (s : Bytes) (c : ℕ) → c ≢ percent → trim_front (c ∷ s) ≡ (false, c ∷ s)
trim_front-Lacks s c h = ground arith

like_suffix :
    (c : ℕ) (s d : Bytes)
    → Lacks percent (c ∷ s)
    → like_text (percent ∷ c ∷ s) d ≡ has_suffix d (c ∷ s)
like_suffix c s d h =
    like_text_of (percent ∷ c ∷ s) d true false (c ∷ s) (c ∷ s) (omega arith) refl
      (trim_back-Lacks (c ∷ s) h)

like_prefix :
    (c : ℕ) (s d : Bytes)
    → Lacks percent (c ∷ s)
    → like_text (c ∷ s ++ percent ∷ []) d ≡ has_prefix d (c ∷ s)
like_prefix c s d h =
    like_text_of (c ∷ s ++ percent ∷ []) d false true (c ∷ s ++ percent ∷ []) (c ∷ s)
      (omega (arith, length-append s (percent ∷ []))) (trim_front-Lacks (s ++ percent ∷ []) c h.0)
      (trim_back-percent (c ∷ s))

like_contains :
    (s d : Bytes) → Lacks percent s → like_text (percent ∷ s ++ percent ∷ []) d ≡ contains d s
like_contains s d h =
    like_text_of (percent ∷ s ++ percent ∷ []) d true true (s ++ percent ∷ []) s
      (omega (arith, length-append s (percent ∷ []))) refl (trim_back-percent s)

like_plain : (s d : Bytes) → Lacks percent s → like_text s d ≡ bytes_eq s d
unfolding like_text
like_plain [] d h = ground arith
like_plain (c ∷ []) d h = ground arith
like_plain (c ∷ b ∷ s) d h =
    like_text_of (c ∷ b ∷ s) d false false (c ∷ b ∷ s) (c ∷ b ∷ s) (omega arith)
      (trim_front-Lacks (b ∷ s) c h.0) (trim_back-Lacks (c ∷ b ∷ s) h)
    ∙ rw (split-Lacks percent (c ∷ b ∷ s) h) refl

like_ends :
    (a b : ℕ) (s t d : Bytes)
    → Lacks percent (a ∷ s)
    → Lacks percent (b ∷ t)
    → like_text (a ∷ s ++ percent ∷ b ∷ t) d ≡ (has_prefix d (a ∷ s) && has_suffix d (b ∷ t))
like_ends a b s t d h k =
    like_text_of (a ∷ s ++ percent ∷ b ∷ t) d false false (a ∷ s ++ percent ∷ b ∷ t)
      (a ∷ s ++ percent ∷ b ∷ t) (omega (arith, length-append s (percent ∷ b ∷ t)))
      (trim_front-Lacks (s ++ percent ∷ b ∷ t) a h.0)
      (trim_back-append (a ∷ s) percent (b ∷ t) ∙ rw (trim_back-Lacks (b ∷ t) k) refl)
    ∙ rw (split-append percent (a ∷ s) (b ∷ t) h, split-Lacks percent (b ∷ t) k) refl

drop-length : (d : Bytes) → drop (length d) d ≡ []
drop-length [] = refl
drop-length (x ∷ d) = drop-length d

has_prefix_refl : (d : Bytes) → has_prefix d d ≡ true
has_prefix_refl [] = refl
has_prefix_refl (x ∷ d) = ground (arith, has_prefix_refl d)

has_suffix_refl : (d : Bytes) → has_suffix d d ≡ true
has_suffix_refl d =
    let e : length d - length d ≡ 0 = omega arith in rw e (ground (arith, bytes_eq_refl d))

-- Of a text that is not empty and has no percent sign: as a pattern, as it is or with one percent sign in
-- front of it, behind it or on both sides, it holds of exactly the texts that the pattern matches, where a
-- percent sign matches any text.
pub like-matches :
    (L : Std) (c : ℕ) (s d : Bytes)
    → Lacks percent (c ∷ s)
    → (like {L = L} (text (percent ∷ c ∷ s)) (text d) ≡ ok (matches (percent ∷ c ∷ s) d))
      × (like {L = L} (text (c ∷ s ++ percent ∷ [])) (text d)
          ≡ ok (matches (c ∷ s ++ percent ∷ []) d))
      × (like {L = L} (text (percent ∷ c ∷ s ++ percent ∷ [])) (text d)
          ≡ ok (matches (percent ∷ c ∷ s ++ percent ∷ []) d))
      × (like {L = L} (text (c ∷ s)) (text d) ≡ ok (matches (c ∷ s) d))
unfolding like
like-matches L c s d h = (
  ap ok (like_suffix c s d h ∙ sym (matches-sign (c ∷ s) d ∙ matches-suffix (c ∷ s) d h)),
  ap ok (like_prefix c s d h ∙ sym (matches-starts (c ∷ s) d h)),
  ap ok (
      like_contains (c ∷ s) d h
      ∙ sym (matches-sign (c ∷ s ++ percent ∷ []) d ∙ matches-contains (c ∷ s) d h)),
  ap ok (like_plain (c ∷ s) d h ∙ sym (matches-Lacks (c ∷ s) d h)),
)

-- A pattern with one percent sign, between other bytes, holds of exactly the texts that it matches
-- among those that are as long as the two parts together.
like-matches_ends :
    (L : Std) (a b : ℕ) (s t d : Bytes)
    → Lacks percent (a ∷ s)
    → Lacks percent (b ∷ t)
    → length (a ∷ s) + length (b ∷ t) ≤ length d
    → like {L = L} (text (a ∷ s ++ percent ∷ b ∷ t)) (text d)
      ≡ ok (matches (a ∷ s ++ percent ∷ b ∷ t) d)
unfolding like
like-matches_ends L a b s t d h k l = ap ok (
    like_ends a b s t d h k
    ∙ sym (
        matches-prefix (a ∷ s) (b ∷ t) d h
        ∙ ap (λ e. has_prefix d (a ∷ s) && e)
            (matches-suffix (b ∷ t) (drop (length (a ∷ s)) d) k
              ∙ has_suffix-drop (length (a ∷ s)) d (b ∷ t) l)))

-- On a shorter text the two parts may overlap: a pattern whose two parts are one text holds of this
-- text, which it does not match.
pub like_overlap :
    (L : Std) (c : ℕ) (s : Bytes)
    → Lacks percent (c ∷ s)
    → (like {L = L} (text (c ∷ s ++ percent ∷ c ∷ s)) (text (c ∷ s)) ≡ ok true)
      × (matches (c ∷ s ++ percent ∷ c ∷ s) (c ∷ s) ≡ false)
unfolding like
like_overlap L c s h = (
  ap ok
      (like_ends c c s s (c ∷ s) h h ∙ rw (has_prefix_refl (c ∷ s), has_suffix_refl (c ∷ s)) refl),
  matches-prefix (c ∷ s) (c ∷ s) (c ∷ s) h
      ∙ rw (has_prefix_refl (c ∷ s), drop-length (c ∷ s)) (matches-Lacks (c ∷ s) [] h),
)
