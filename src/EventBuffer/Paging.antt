-- ===== src/EventBuffer/Paging.antt =====
-- The paged generator `iter_pending` visits what one pass over a snapshot of the table visits.
use isales_telephony.Base.{
  none, ℕ, zero, suc, ◌+◌, ◌≤◌, ◌<◌, ◌≡◌, refl, sym, ap, ◌∙◌, Option, some, List, [], ◌∷◌, ◌++◌,
  arith, subst, leb, length, take, drop, keep, length-drop, take-append-drop,
}
use isales_telephony.EventBuffer.{
  Row, page, visit, visit_page, reads_sound, BufferError, iter_pending,
}

-- The loop has ended in this state, and nothing was raised.
abbrev pub ended : {S : Type 0} → S → Option (S × Option BufferError)
ended s = some (s, none)

module _ {P : Type 0} where
  -- the seqs rise, from `after` on
  abbrev pub IsSorted : ℕ → List (Row P) → Type 0
  IsSorted after [] = Unit
  IsSorted after (r ∷ rs) = (after ≤ r.seq) × IsSorted (r.seq + 1) rs

  abbrev pub IsBelow : ℕ → List (Row P) → Type 0
  IsBelow after [] = Unit
  IsBelow after (r ∷ rs) = (r.seq < after) × IsBelow after rs

  pub IsBelow-weaken : {a b : ℕ} (rows : List (Row P)) → a ≤ b → IsBelow a rows → IsBelow b rows
  IsBelow-weaken [] h t = tt
  IsBelow-weaken (r ∷ rs) h t = (omega arith, IsBelow-weaken rs h t.1)

  IsSorted-weaken : {a b : ℕ} (rows : List (Row P)) → a ≤ b → IsSorted b rows → IsSorted a rows
  IsSorted-weaken [] h t = tt
  IsSorted-weaken (r ∷ rs) h t = (omega arith, t.1)

  abbrev from : ℕ → List (Row P) → List (Row P)
  from after rows = keep (λ (r : Row P). leb after r.seq) rows

  from_sorted : (after : ℕ) (rows : List (Row P)) → IsSorted after rows → from after rows ≡ rows
  from_sorted after [] h = refl
  from_sorted after (r ∷ rs) h =
      ground (arith, from_sorted after rs (IsSorted-weaken rs (omega arith) h.1))

  from_append :
      (after : ℕ) (done rest : List (Row P))
      → IsBelow after done
      → IsSorted after rest
      → from after (done ++ rest) ≡ rest
  from_append after [] rest b h = from_sorted after rest h
  from_append after (r ∷ rs) rest b h = ground (arith, from_append after rs rest b.1 h)

module _ {P M S : Type 0} (parse : P → Option M) (rows_of : S → List (Row P))
    (body : ℕ → M → S → S) where
  -- One pass over a list of rows.
  unfoldable pub visit_all : List (Row P) → S → S
  visit_all [] s = s
  visit_all (r ∷ rs) s = visit_all rs (visit parse rows_of body r s)

  -- What the loop body may do to the table: it removes nothing but rows already visited.
  pub record IsTail (r : Row P) (rest : List (Row P)) (s : S) : Type 0 where
    pub done : List (Row P)
    pub split : rows_of s ≡ done ++ rest
    pub below : IsBelow (r.seq + 1) done

  abbrev pub KeepsUnvisited : Type 0
  KeepsUnvisited =
      (r : Row P) (done rest : List (Row P)) (s : S)
      → rows_of s ≡ done ++ r ∷ rest
      → IsBelow r.seq done
      → IsSorted (r.seq + 1) rest
      → IsTail r rest (visit parse rows_of body r s)

  visit_all-append :
      (xs ys : List (Row P)) (s : S) → visit_all (xs ++ ys) s ≡ visit_all ys (visit_all xs s)
  unfolding visit_all
  visit_all-append [] ys s = refl
  visit_all-append (x ∷ xs) ys s = visit_all-append xs ys (visit parse rows_of body x s)

  record PageDone (q : List (Row P)) (p : List (Row P)) (s : S) (out : ℕ × S) : Type 0 where
    done : List (Row P)
    split : rows_of out.1 ≡ done ++ q
    below : IsBelow out.0 done
    sorted : IsSorted out.0 q
    same : out.1 ≡ visit_all p s

  module _ (keeps : KeepsUnvisited) where
    visit_page_lem :
        (p q done : List (Row P)) (after : ℕ) (s : S)
        → rows_of s ≡ done ++ (p ++ q)
        → IsBelow after done
        → IsSorted after (p ++ q)
        → PageDone q p s (visit_page parse rows_of body p after s)
    unfolding visit_page visit_all
    visit_page_lem [] q done after s e b h = record {
      done = done;
      split = e;
      below = b;
      sorted = h;
      same = refl;
    }
    visit_page_lem (r ∷ p) q done after s e b h =
        let t = keeps r done (p ++ q) s e (IsBelow-weaken done h.0 b) h.1 in
        let d =
          visit_page_lem p q t.done (r.seq + 1) (visit parse rows_of body r s) t.split t.below
            h.1 in
        record { done = d.done; split = d.split; below = d.below; sorted = d.sorted; same = d.same }

    page_rows :
        (size after : ℕ) (done rest : List (Row P)) (s : S)
        → rows_of s ≡ done ++ rest
        → IsBelow after done
        → IsSorted after rest
        → page size after (rows_of s) ≡ take size rest
    unfolding page
    page_rows size after done rest s e b h = rw (e, from_append after done rest b h)

    -- with more fuel than rows the generator ends, and has made one pass over the rows
    iter_pending_from :
        (fuel size after : ℕ) (done rest : List (Row P)) (s : S)
        → length rest < fuel
        → rows_of s ≡ done ++ rest
        → IsBelow after done
        → IsSorted after rest
        → iter_pending parse rows_of body reads_sound fuel (suc size) after s
          ≡ some (visit_all rest s, none)
    unfolding iter_pending visit_all
    iter_pending_from zero size after done rest s lt e b h = elim lt [ ]
    iter_pending_from (suc fuel) size after done [] s lt e b h =
        rw (page_rows (suc size) after done [] s e b h)
    iter_pending_from (suc fuel) size after done (r ∷ rest) s lt e b h =
        let p = r ∷ take size rest in
        let q = drop size rest in
        let whole : p ++ q ≡ r ∷ rest = ap (λ l. r ∷ l) (take-append-drop size rest) in
        let d =
          visit_page_lem p q done after s (rw whole e) b
            (subst (λ l. IsSorted after l) (sym whole) h) in
        rw (page_rows (suc size) after done (r ∷ rest) s e b h) (
          iter_pending_from fuel size _ d.done q _ (omega (arith, length-drop size rest)) d.split
            d.below d.sorted
          ∙ ap (λ t. ended (visit_all q t)) d.same
          ∙ ap ended (sym (visit_all-append p q s))
          ∙ ap (λ l. ended (visit_all l s)) whole)

    -- Paged reading visits each row of a snapshot once, in order, although the table is read anew
    -- for each page and the loop body may delete what it has seen, if no SELECT raises.
    pub iter_pending-eq-visit_all :
        (fuel size : ℕ) (s : S)
        → length (rows_of s) < fuel
        → IsSorted 0 (rows_of s)
        → iter_pending parse rows_of body reads_sound fuel (suc size) 0 s
          ≡ some (visit_all (rows_of s) s, none)
    iter_pending-eq-visit_all fuel size s lt h =
        iter_pending_from fuel size 0 [] (rows_of s) s lt refl tt h
