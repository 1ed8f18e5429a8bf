-- ===== src/Search/Top.antt =====
-- What the bounded heap of src/search.rs holds in the end: the best `k` of all hits, in order.
use gengis_mimi.Shared.{
  ℕ, zero, suc, ◌≡◌, refl, sym, ap, ◌∙◌, List, [], ◌∷◌, ◌++◌, take, append-nil, append_assoc,
}
use mathlib.Core.List.{Perm, perm_append_singleton}
use mathlib.Core.List.Perm
use gengis_mimi.Search.Heap.{push, retain, IsSorted, push-IsSorted, push-Perm}
use gengis_mimi.Search.Best.{retain-take}
use gengis_mimi.Search.Hits.{Hit, ranked, retain_all}

-- `best` is the first `k` of all hits in an order in which none comes before a better one.
pub record IsTop (k : ℕ) (hits best : List Hit) : Type 0 where
  pub all_hits : List Hit
  pub same_hits : Perm all_hits hits
  pub in_order : IsSorted ranked all_hits
  pub first : best ≡ take k all_hits

pub IsTop-nil : (k : ℕ) → IsTop k [] []
IsTop-nil k = record { all_hits = []; same_hits = Perm.refl []; in_order = tt; first = nil_first k }
  where
    nil_first : (n : ℕ) → [] ≡ take {A = Hit} n []
    nil_first zero = refl
    nil_first (suc n) = refl

-- One more hit.
pub retain-IsTop :
    (k : ℕ) (hit : Hit) (hits best : List Hit)
    → IsTop k hits best
    → IsTop k (hit ∷ hits) (retain ranked k hit best)
retain-IsTop k hit hits best h = record {
  all_hits = push ranked hit h.all_hits;
  same_hits = Perm.trans (push-Perm ranked hit h.all_hits) (Perm.cons hit h.same_hits);
  in_order = push-IsSorted ranked hit h.all_hits h.in_order;
  first = ap (retain ranked k hit) h.first ∙ retain-take ranked k hit h.all_hits h.in_order;
}

IsTop-Perm :
    (k : ℕ) (hits others best : List Hit)
    → Perm hits others
    → IsTop k hits best
    → IsTop k others best
IsTop-Perm k hits others best p h = record {
  all_hits = h.all_hits;
  same_hits = Perm.trans h.same_hits p;
  in_order = h.in_order;
  first = h.first;
}

-- Where a bounded heap holds the first `k`, by falling score and rising ID, of the hits that it
-- was shown, it holds after more hits the first `k` of all of them.
pub retain_all-IsTop :
    (k : ℕ) (hits seen best : List Hit)
    → IsTop k seen best
    → IsTop k (seen ++ hits) (retain_all k hits best)
unfolding retain_all
retain_all-IsTop k [] seen best h = rw (append-nil seen) h
retain_all-IsTop k (hit ∷ hits) seen best h =
    let next = retain-IsTop k hit seen best h in
    let moved =
      IsTop-Perm k (hit ∷ seen) (seen ++ hit ∷ []) _ (Perm.symm (perm_append_singleton hit seen))
        next in
    rw (sym (append_assoc seen (hit ∷ []) hits))
      (retain_all-IsTop k hits (seen ++ hit ∷ []) (retain ranked k hit best) moved)
