-- ===== src/Engine/Erase/Effect.antt =====
-- What `delete_namespace` and `erase_namespace` of src/engine.rs leave, also where they fail.
use gengis_mimi.Shared.{
  ◌≡◌, refl, sym, ◌∙◌, Bool, true, false, List, [], ◌∷◌, ◌++◌, any, append-nil, arith,
}
use gengis_mimi.Shared.Bytes.{Bytes, starts_with}
use gengis_mimi.Slate.{Slate}
use gengis_mimi.Slate.Action.{Ends, returned, Ends-continue, Ends-reads, Ends-weaken, Ends-mono}
use gengis_mimi.Slate.Entries.{Entry, Op, put, delete, apply_batch, with_prefix}
use gengis_mimi.Slate.Batches.{Partly}
use gengis_mimi.Slate.Deletes.{
  Cleared, Touched, Touched-refl, Cleared-Touched, Touched-after, Cleared-after, Touched-mono,
  deletes, is_one_of, Cleared-deletes, keys_of, is_one_of-with_prefix, Cleared-prefix,
}
use gengis_mimi.Engine.Erase.{no_ops, clear_rows, clear_prefixes}
use gengis_mimi.Engine.Erase.Rows.{dropped-all, clear_rows-Ends}

-- The first of some deletions.
record First (ks : List Bytes) (written : List Op) : Type 0 where
  front : List Bytes
  front_eq : written ≡ deletes front
  among : (k : Bytes) → is_one_of front k ≡ true → is_one_of ks k ≡ true

op_keys : {a b : Bytes} {x y : List Op} → (delete a ∷ x) ≡ (delete b ∷ y) → (a ≡ b) × (x ≡ y)
op_keys h = (cc, cc)

First-deletes :
    (ks : List Bytes) (written lost : List Op) → written ++ lost ≡ deletes ks → First ks written
First-deletes ks [] lost h = record { front = []; front_eq = refl; among = λ k e. cc }
First-deletes [] (op ∷ written) lost h = cc
First-deletes (j ∷ ks) (put k v ∷ written) lost h = cc
First-deletes (j ∷ ks) (delete k ∷ written) lost h =
    let (same, rest) = op_keys h in
    let more = First-deletes ks written lost rest in
    record {
      front = j ∷ more.front;
      front_eq = rw (same, more.front_eq) refl;
      among = λ i e. ground (arith, more.among i);
    }

pub no_batch : (es : List Entry) → es ≡ apply_batch [] es
unfolding apply_batch
no_batch es = refl

abbrev pub has_one_of : List Bytes → Bytes → Bool
has_one_of ps k = any (λ p. starts_with p k) ps

module _ (s : Slate) where
  Partly-Touched :
      (es : List Entry) (ks : List Bytes) (db : s.Db)
      → Partly s es (deletes ks) db
      → Touched (is_one_of ks) es (s.entries db)
  Partly-Touched es ks db p =
      let first = First-deletes ks p.written p.lost p.together in
      rw (p.content, first.front_eq)
        (Touched-mono (is_one_of first.front) (is_one_of ks) es
          (apply_batch (deletes first.front) es) first.among
          (Cleared-Touched (is_one_of first.front) es (apply_batch (deletes first.front) es)
            (Cleared-deletes first.front es)))

  -- All rows that a prefix lists.
  clear_listed-Ends :
      (p : Bytes) (db : s.Db)
      → Ends
          (λ u db'. Cleared (starts_with p) (s.entries db) (s.entries db'))
          (λ db'. Touched (starts_with p) (s.entries db) (s.entries db'))
          (clear_rows s (λ key. false) (with_prefix p (s.entries db)) no_ops db)
  clear_listed-Ends p db =
      let es = s.entries db in
      let ks = keys_of (with_prefix p es) in
      let ends = rw (dropped-all (with_prefix p es)) at (
        clear_rows-Ends s es (λ key. false) (with_prefix p es) [] no_ops db
          (record {
            waiting = record { written = []; content = no_batch es; together = refl };
            counted = refl;
          })) in
      Ends-mono ends
        (λ u db' w. rw (w.content, all_written w.written ks w.together) (Cleared-prefix p es))
        (λ db' part.
          Touched-mono (is_one_of ks) (starts_with p) es (s.entries db')
            (λ k. is_one_of-with_prefix p k es) (Partly-Touched es ks db' part))
    where
      all_written :
          (written : List Op) (ks : List Bytes) → written ++ [] ≡ deletes ks → written ≡ deletes ks
      all_written written ks e = sym (append-nil written) ∙ e

  Touched-one :
      (p : Bytes) (ps : List Bytes) (es fs : List Entry)
      → Touched (starts_with p) es fs
      → Touched (has_one_of (p ∷ ps)) es fs
  Touched-one p ps es fs h =
      Touched-mono (starts_with p) (has_one_of (p ∷ ps)) es fs (λ k e. rw e refl) h

  pub clear_prefixes-Ends :
      (ps : List Bytes) (db : s.Db)
      → Ends
          (λ u db'. Cleared (has_one_of ps) (s.entries db) (s.entries db'))
          (λ db'. Touched (has_one_of ps) (s.entries db) (s.entries db'))
          (clear_prefixes s ps db)
  unfolding clear_prefixes
  clear_prefixes-Ends [] db = returned (λ k. refl)
  clear_prefixes-Ends (p ∷ ps) db =
      let es = s.entries db in
      Ends-reads (s.scan_prefix db p) db _ (Touched-refl (has_one_of (p ∷ ps)) es) λ rows listed.
        rw (s.scan_prefix_lem db p listed) (
          Ends-continue
            (Ends-weaken (clear_listed-Ends p db) (λ db' t. Touched-one p ps es (s.entries db') t))
            λ u db' cleared.
              Ends-mono (clear_prefixes-Ends ps db')
                (λ v db'' more.
                  Cleared-after (starts_with p) (has_one_of ps) es (s.entries db') (s.entries db'')
                    cleared more)
                (λ db'' more.
                  Touched-after (starts_with p) (has_one_of ps) es (s.entries db') (s.entries db'')
                    cleared more))
