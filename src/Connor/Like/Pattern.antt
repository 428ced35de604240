-- ===== src/Connor/Like/Pattern.antt =====
-- connor/like.go: which patterns mean what a percent sign means in SQL.
use defradg.Prelude.{
  ℕ, zero, suc, ◌+◌, ◌-◌, ◌≤◌, ◌≡◌, ◌≢◌, refl, ap, ◌∙◌, Bytes, Bool, true, false, ◌&&◌, ◌||◌, [],
  ◌∷◌, ◌++◌, arith, length, is_empty, drop, ◌==◌, if◌then◌else◌, bytes_eq, bytes_eq_iff, has_prefix,
  Lacks,
}
use defradg.Connor.Like.{percent, has_suffix, contains, trim_back}

-- Whether a test holds of the text behind some first part.
abbrev pub some_suffix : (Bytes → Bool) → Bytes → Bool
some_suffix f [] = f []
some_suffix f (x ∷ d) = f (x ∷ d) || some_suffix f d

abbrev head_matches : ℕ → (Bytes → Bool) → Bytes → Bool
head_matches c f [] = false
head_matches c f (x ∷ d) = c == x && f d

-- The meaning of a pattern: a percent sign matches any text, and a byte matches itself.
unfoldable pub matches : Bytes → Bytes → Bool
matches [] d = is_empty d
matches (c ∷ p) d =
    let rest = matches p in if c == percent then some_suffix rest d else head_matches c rest d

length_of_bytes_eq : (a b : Bytes) → bytes_eq a b ≡ true → length a ≡ length b
length_of_bytes_eq a b h = ap length ((bytes_eq_iff a b).0 h)

pub matches-Lacks : (s d : Bytes) → Lacks percent s → matches s d ≡ bytes_eq s d
unfolding matches
matches-Lacks [] [] h = refl
matches-Lacks [] (x ∷ d) h = refl
matches-Lacks (c ∷ s) [] h = ground arith
matches-Lacks (c ∷ s) (x ∷ d) h = ground (arith, matches-Lacks s d)

some_suffix-is_empty : (d : Bytes) → some_suffix is_empty d ≡ true
some_suffix-is_empty [] = refl
some_suffix-is_empty (x ∷ d) = some_suffix-is_empty d

-- What is before a percent sign is a prefix, and the sign matches what is behind it.
pub matches-prefix :
    (s p d : Bytes)
    → Lacks percent s
    → matches (s ++ percent ∷ p) d ≡ (has_prefix d s && some_suffix (matches p) (drop (length s) d))
unfolding matches
matches-prefix [] p [] h = refl
matches-prefix [] p (x ∷ d) h = refl
matches-prefix (c ∷ s) p [] h = ground arith
matches-prefix (c ∷ s) p (x ∷ d) h = ground (arith, matches-prefix s p d)

drop-suc : (x : ℕ) (d : Bytes) (m n : ℕ) → m ≤ n → drop (suc n - m) (x ∷ d) ≡ drop (n - m) d
drop-suc x d m n h = let e : suc n - m ≡ suc (n - m) = omega arith in ap (λ k. drop k (x ∷ d)) e

drop_all :
    (x : ℕ) (d : Bytes) (m : ℕ) → m ≡ suc (length d) → drop (suc (length d) - m) (x ∷ d) ≡ x ∷ d
drop_all x d m h = let e : suc (length d) - m ≡ 0 = omega arith in ap (λ k. drop k (x ∷ d)) e

bytes_eq_sym : (a b : Bytes) → bytes_eq a b ≡ bytes_eq b a
bytes_eq_sym a b = ground (arith, bytes_eq_iff a b, bytes_eq_iff b a)

bytes_eq-length : (a b : Bytes) → length a ≢ length b → bytes_eq a b ≡ false
bytes_eq-length a b h = ground (arith, length_of_bytes_eq a b)

pub some_suffix-bytes_eq : (t d : Bytes) → some_suffix (bytes_eq t) d ≡ has_suffix d t
some_suffix-bytes_eq [] [] = refl
some_suffix-bytes_eq (y ∷ t) [] = ground arith
some_suffix-bytes_eq t (x ∷ d) = ground (
  arith,
  some_suffix-bytes_eq t d,
  drop-suc x d (length t) (length d),
  drop_all x d (length t),
  bytes_eq-length t (x ∷ d),
  bytes_eq_sym t (x ∷ d),
)

some_suffix-has_prefix : (t d : Bytes) → some_suffix (λ e. has_prefix e t) d ≡ contains d t
some_suffix-has_prefix t [] = refl
some_suffix-has_prefix t (x ∷ d) = ap (λ b. has_prefix (x ∷ d) t || b) (some_suffix-has_prefix t d)

pub trim_back-append :
    (a : Bytes) (y : ℕ) (b : Bytes)
    → trim_back (a ++ y ∷ b) ≡ ((trim_back (y ∷ b)).0, a ++ (trim_back (y ∷ b)).1)
trim_back-append [] y b = refl
trim_back-append (x ∷ []) y b = refl
trim_back-append (x ∷ z ∷ a) y b = rw (trim_back-append (z ∷ a) y b) refl

pub trim_back-Lacks : (s : Bytes) → Lacks percent s → trim_back s ≡ (false, s)
trim_back-Lacks [] h = refl
trim_back-Lacks (x ∷ []) h = ground arith
trim_back-Lacks (x ∷ y ∷ s) h = rw (trim_back-Lacks (y ∷ s) h.1) refl

pub some_suffix-ext :
    (f g : Bytes → Bool) (d : Bytes) → ((e : Bytes) → f e ≡ g e) → some_suffix f d ≡ some_suffix g d
some_suffix-ext f g [] h = h []
some_suffix-ext f g (x ∷ d) h = ground (arith, h (x ∷ d), some_suffix-ext f g d h)

pub has_suffix-drop :
    (n : ℕ) (d t : Bytes) → n + length t ≤ length d → has_suffix (drop n d) t ≡ has_suffix d t
has_suffix-drop zero d t h = refl
has_suffix-drop (suc n) [] t h = refl
has_suffix-drop (suc n) (x ∷ d) t h =
    ground (arith, has_suffix-drop n d t, drop-suc x d (length t) (length d))

pub matches-suffix : (s d : Bytes) → Lacks percent s → some_suffix (matches s) d ≡ has_suffix d s
matches-suffix s d h =
    some_suffix-ext (matches s) (bytes_eq s) d (λ e. matches-Lacks s e h) ∙ some_suffix-bytes_eq s d

pub matches-starts :
    (s d : Bytes) → Lacks percent s → matches (s ++ percent ∷ []) d ≡ has_prefix d s
unfolding matches
matches-starts s d h =
    ground (arith, matches-prefix s [] d h, some_suffix-is_empty (drop (length s) d))

pub matches-contains :
    (s d : Bytes) → Lacks percent s → some_suffix (matches (s ++ percent ∷ [])) d ≡ contains d s
matches-contains s d h =
    some_suffix-ext (matches (s ++ percent ∷ [])) (λ e. has_prefix e s) d
      (λ e. matches-starts s e h)
    ∙ some_suffix-has_prefix s d

pub matches-sign : (p d : Bytes) → matches (percent ∷ p) d ≡ some_suffix (matches p) d
unfolding matches
matches-sign p d = ground arith
