-- ===== src/Order/Less.antt =====
-- planner/values.go, Less: which documents come first.
use defradg.Prelude.{◌≡◌, refl, sym, ap, ◌∙◌, Bytes, Bool, List, ◌∷◌, Option, Result, ok}
use defradg.Order.{Std, Field, Doc, OrderCondition, get_doc_prop, doc_value_less, less}
use defradg.Order.Compare.{Kind, Ranked, compare-by_rank, before, before-asymm, before_trans}
use defradg.Order.Sort.{IsOrder}

-- A document's field of an order condition is of a kind.
pub record HasKind {L : Std} (o : OrderCondition) (k : Kind) (d : Doc L) : Type 0 where
  pub value : Field L
  pub place : Option Bytes
  pub read : get_doc_prop d.fields_of o.field_indexes ≡ ok value
  pub ranked : Ranked k value place

ok-injective : (s t : Bool) → Path (Result Bool) (ok s) (ok t) → s ≡ t
ok-injective s t e = cc e

module _ {L : Std} (o : OrderCondition) (ordering : List OrderCondition) (k : Kind) where
  less-before :
      (a c : Doc L) (p : HasKind o k a) (q : HasKind o k c)
      → less (o ∷ ordering) a c ≡ ok (before o.descending p.place q.place)
  unfolding less doc_value_less
  less-before a c p q = rw (p.read, q.read, compare-by_rank p.ranked q.ranked) refl

  -- On documents whose field of the first condition is of one kind, Less is a strict weak order.
  pub less-IsOrder : IsOrder (less {L = L} (o ∷ ordering)) (HasKind o k)
  less-IsOrder = record {
    decided = λ a c p q. (before o.descending p.place q.place, less-before a c p q);
    asymm = λ a c p q e.
        less-before c a q p
        ∙ ap ok (
            before-asymm o.descending p.place q.place
              (ok-injective _ _ (sym (less-before a c p q) ∙ e)));
    trans = λ a c d p q r e f.
        less-before a d p r
        ∙ ap ok (
            before_trans o.descending p.place q.place r.place
              (ok-injective _ _ (sym (less-before a c p q) ∙ e))
              (ok-injective _ _ (sym (less-before c d q r) ∙ f)));
  }
