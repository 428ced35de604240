-- ===== src/Fetcher/Reference.antt =====
-- db/fetcher/fetcher.go: a reference for the documents of a list of pairs.
use defradg.Prelude.{
  ◌≡◌, refl, Bytes, false, List, [], ◌∷◌, ◌++◌, some, All, bytes_eq, All-append, if◌then◌else◌,
  Result, ok, err, ◌>>=◌,
}
use defradg.Collection.{FieldDescription}
use defradg.Fetcher.{KeyValue, EncodedDocument, add_property, is_marker}
use defradg.Fetcher.Pairs.{OfOther}

abbrev pub doc : Bytes → List (FieldDescription × Bytes) → EncodedDocument
doc k ps = record { key = some k; properties = ps }

-- A reference: a document for each run of pairs of one document key, with a property for each pair
-- that is no object marker.
abbrev pub add_pair :
    List FieldDescription
    → KeyValue
    → List (FieldDescription × Bytes)
    → Result (List (FieldDescription × Bytes))
add_pair fs kv ps = if is_marker kv then ok ps else add_property fs kv ps

abbrev pub documents_from :
    List FieldDescription
    → Bytes
    → List (FieldDescription × Bytes)
    → List KeyValue
    → Result (List EncodedDocument)
documents_from fs k ps [] = ok (doc k ps ∷ [])
documents_from fs k ps (y ∷ ys) =
    if bytes_eq y.key.doc_key k
    then add_pair fs y ps >>= (λ qs. documents_from fs k qs ys)
    else add_pair fs y []
      >>= (λ qs. documents_from fs y.key.doc_key qs ys >>= (λ ds. ok (doc k ps ∷ ds)))

abbrev pub documents_of : List FieldDescription → List KeyValue → Result (List EncodedDocument)
documents_of fs [] = ok []
documents_of fs (y ∷ ys) = add_pair fs y [] >>= (λ ps. documents_from fs y.key.doc_key ps ys)

abbrev pub all_pairs : List (List KeyValue) → List KeyValue
all_pairs [] = []
all_pairs (c ∷ cs) = c ++ all_pairs cs

-- No document has pairs in two spans.
abbrev pub Apart : List (List KeyValue) → Type 0
Apart [] = Unit
Apart (c ∷ cs) = All (λ kv. OfOther kv.key.doc_key cs) c × Apart cs

abbrev pub Others : Bytes → List KeyValue → Type 0
Others k = All (λ kv. bytes_eq kv.key.doc_key k ≡ false)

pub Others-all_pairs :
    (k : Bytes) (cs : List (List KeyValue)) → OfOther k cs → Others k (all_pairs cs)
Others-all_pairs k [] h = tt
Others-all_pairs k (c ∷ cs) h =
    All-append (λ kv. bytes_eq kv.key.doc_key k ≡ false) c (all_pairs cs) h.0
      (Others-all_pairs k cs h.1)

pub bind_assoc {ℓ} :
    {A B C : Type ℓ} (m : Result A) (f : A → Result B) (g : B → Result C)
    → (m >>= (λ a. f a >>= g)) ≡ ((m >>= f) >>= g)
bind_assoc (err e) f g = refl
bind_assoc (ok a) f g = refl

-- Behind the last pair of a document, the others follow.
pub documents_from-other :
    (fs : List FieldDescription) (k : Bytes) (ps : List (FieldDescription × Bytes))
    (zs : List KeyValue)
    → Others k zs
    → documents_from fs k ps zs ≡ (documents_of fs zs >>= (λ ds. ok (doc k ps ∷ ds)))
documents_from-other fs k ps [] h = refl
documents_from-other fs k ps (z ∷ zs) h = rw h.0 (
    bind_assoc (add_pair fs z []) (λ qs. documents_from fs z.key.doc_key qs zs)
      (λ ds. ok (doc k ps ∷ ds)))
