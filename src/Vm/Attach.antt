-- ===== src/Vm/Attach.antt =====
-- kernel/vm.c: a page that `walk` allocates becomes one node of the tree.
use os_final_project.Prelude.{
  ℕ, ◌+◌, ◌≡◌, ◌≢◌, refl, ap, ap₂, sym, ◌∙◌, subst, inl, inr, Option-cases, none, some,
  some-injective, List, ◌∷◌, update, update_self, update_ne, ℕ_discrete, NotIn, All,
}
use os_final_project.Vm.{Vm, pa2pte, set_entry, clear_table}
use os_final_project.Vm.Tree.{
  Node, top, mid, low, child, page, IsFrame, IsTree, child_new, IsAttached,
}

pub page_low :
    (w : Vm) (root k j m : ℕ)
    → page w root (mid k) ≡ some m
    → page w root (low k j) ≡ child (w.entries m j)
unfolding page
page_low w root k j m e = rw (page, e) refl

pub page_low_none :
    (w : Vm) (root k j : ℕ) → page w root (mid k) ≡ none → page w root (low k j) ≡ none
unfolding page
page_low_none w root k j e = rw (page, e) refl

module _ {v : Vm} {root p : ℕ} {rest : List ℕ} (t : IsTree v root) (free : v.free ≡ p ∷ rest) where
  -- A page of the tree is not the new one.
  other : (m : Node) (q : ℕ) → page v root m ≡ some q → q ≢ p
  other m q e s = (subst (NotIn q) free (t.taken m q e)).0 (sym s)

  frame : IsFrame p
  frame = (subst (All IsFrame) free t.frames).0

  -- The entries after the entry `i` of `pt` has come to refer to `p`.
  abbrev grown : ℕ → ℕ → Vm
  grown pt i = set_entry pt i (pa2pte p + 1) (clear_table p rest v)

  -- The entries before and after the new one is written.
  abbrev zeroed : ℕ → ℕ → ℕ
  zeroed = (clear_table p rest v).entries

  abbrev row : ℕ → ℕ → ℕ → ℕ
  row pt i = update (zeroed pt) i (pa2pte p + 1)

  zeroed_other : (q : ℕ) → q ≢ p → zeroed q ≡ v.entries q
  unfolding clear_table
  zeroed_other q ne = update_ne v.entries p q (λ i. 0) ne

  entries_other : (pt i q : ℕ) → q ≢ pt → q ≢ p → (grown pt i).entries q ≡ v.entries q
  unfolding set_entry
  entries_other pt i q ne ne' = update_ne zeroed pt q (row pt i) ne ∙ zeroed_other q ne'

  entries_at : (pt i k : ℕ) → k ≢ i → pt ≢ p → (grown pt i).entries pt k ≡ v.entries pt k
  unfolding set_entry
  entries_at pt i k ne ne' =
      ap (λ f. f k) (update_self zeroed pt (row pt i))
      ∙ update_ne (zeroed pt) i k (pa2pte p + 1) ne
      ∙ ap (λ f. f k) (zeroed_other pt ne')

  entry_new : (pt i : ℕ) → (grown pt i).entries pt i ≡ pa2pte p + 1
  unfolding set_entry
  entry_new pt i =
      ap (λ f. f i) (update_self zeroed pt (row pt i)) ∙ update_self (zeroed pt) i (pa2pte p + 1)

  entries_fresh : (pt i : ℕ) → pt ≢ p → (grown pt i).entries p ≡ λ k. 0
  unfolding set_entry clear_table
  entries_fresh pt i ne =
      update_ne zeroed pt p (row pt i) (λ e. ne (sym e)) ∙ update_self v.entries p (λ k. 0)

  node_other :
      (m n : Node) (a b : ℕ) → page v root m ≡ some a → page v root n ≡ some b → m ≢ n → a ≢ b
  node_other m n a b e e' ne s = ne (t.apart m n a e (e' ∙ ap some (sym s)))

  pub attach_mid : (i : ℕ) → page v root (mid i) ≡ none → IsAttached v root (mid i) p (grown root i)
  unfolding page set_entry clear_table
  attach_mid i was = record {
    pages = same;
    new = new;
    was = was;
    free = free;
    kept = λ k j q e.
        entries_other root i q (node_other (low k j) top q root e refl (λ s. cc))
          (other (low k j) q e);
    zero = λ k j e. cc;
    bytes = refl;
  }
    where
      root_other : root ≢ p
      root_other = other top root refl

      new : page (grown root i) root (mid i) ≡ some p
      new = ap child (entry_new root i) ∙ child_new p frame

      same_mid : (k : ℕ) → k ≢ i → page (grown root i) root (mid k) ≡ page v root (mid k)
      same_mid k ne = ap child (entries_at root i k ne root_other)

      same : (k : Node) → k ≢ mid i → page (grown root i) root k ≡ page v root k
      same top ne = refl
      same (mid k) ne = same_mid k (λ e. ne (ap mid e))
      same (low k j) ne = elim (ℕ_discrete k i) [
        | yes e ↦
            page_low (grown root i) root k j p (ap (λ x. page (grown root i) root (mid x)) e ∙ new)
            ∙ ap (λ f. child (f j)) (entries_fresh root i root_other)
            ∙ sym (page_low_none v root k j (ap (λ x. page v root (mid x)) e ∙ was))
        | no differ ↦ elim (Option-cases (page v root (mid k))) [
          | inl z ↦
              page_low_none (grown root i) root k j (same_mid k differ ∙ z)
              ∙ sym (page_low_none v root k j z)
          | inr (m, e) ↦
              page_low (grown root i) root k j m (same_mid k differ ∙ e)
              ∙ ap (λ f. child (f j))
                  (entries_other root i m (node_other (mid k) top m root e refl (λ s. cc))
                    (other (mid k) m e))
              ∙ sym (page_low v root k j m e)
        ]
      ]

  pub attach_low :
      (i j m : ℕ)
      → page v root (mid i) ≡ some m
      → page v root (low i j) ≡ none
      → IsAttached v root (low i j) p (grown m j)
  unfolding page set_entry clear_table
  attach_low i j m e was = record {
    pages = same;
    new =
        page_low (grown m j) root i j m (same_mid i ∙ e)
        ∙ ap child (entry_new m j)
        ∙ child_new p frame;
    was = was;
    free = free;
    kept = λ k l q e'.
        entries_other m j q (node_other (low k l) (mid i) q m e' e (λ s. cc))
          (other (low k l) q e');
    zero = λ k l s. entries_fresh m j m_other;
    bytes = refl;
  }
    where
      m_other : m ≢ p
      m_other = other (mid i) m e

      same_mid : (k : ℕ) → page (grown m j) root (mid k) ≡ page v root (mid k)
      same_mid k =
          ap (λ f. child (f k))
            (entries_other m j root (node_other top (mid i) root m refl e (λ s. cc))
              (other top root refl))

      same : (k : Node) → k ≢ low i j → page (grown m j) root k ≡ page v root k
      same top ne = refl
      same (mid k) ne = same_mid k
      same (low k l) ne = elim (Option-cases (page v root (mid k))) [
        | inl z ↦
            page_low_none (grown m j) root k l (same_mid k ∙ z) ∙ sym (page_low_none v root k l z)
        | inr (q, e') ↦
            page_low (grown m j) root k l q (same_mid k ∙ e')
            ∙ ap child (entry q k l e' ne)
            ∙ sym (page_low v root k l q e')
      ]
        where
          entry :
              (q k l : ℕ)
              → page v root (mid k) ≡ some q
              → low k l ≢ low i j
              → (grown m j).entries q l ≡ v.entries q l
          entry q k l e' ne = elim (ℕ_discrete k i) [
            | yes s ↦
                let s' : m ≡ q =
                  some-injective _ _ (sym e ∙ ap (λ x. page v root (mid x)) (sym s) ∙ e') in
                subst (λ x. (grown m j).entries x l ≡ v.entries x l) s'
                  (entries_at m j l (λ r. ne (ap₂ low s r)) m_other)
            | no differ ↦
                ap (λ f. f l)
                  (entries_other m j q (node_other (mid k) (mid i) q m e' e (λ r. differ (cc)))
                    (other (mid k) q e'))
          ]
