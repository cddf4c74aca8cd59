-- ===== src/Provider/Items.antt =====
-- Facts about the items of a table over the streams of a heap.
use aggregator.Base.{
  ℕ, suc, ◌≡◌, ◌≢◌, refl, sym, ap, subst, ◌∙◌, List, [], ◌∷◌, ◌++◌, Option, none, some, arith,
  length, All, ℕ_discrete,
}
use aggregator.Memory.{Stream, update, update_ne}
use aggregator.Uthash.{Item, lookup, erase}
use aggregator.Provider.Validity.{Backed, Distinct}

-- A stream that is set anew under its identifier stays backed.
pub Backed-update :
    (streams : ℕ → Option Stream) (q : ℕ) (t : Stream) (items : List Item)
    → ((s : Stream) → streams q ≡ some s → s.id ≡ t.id)
    → Backed streams items
    → Backed (update streams q (some t)) items
Backed-update streams q t [] same b = tt
Backed-update streams q t ((k, p) ∷ items) same b = elim (ℕ_discrete q p) [
  | yes e ↦ (
    (t, ground arith, sym (same b.0.0 (rw e b.0.1)) ∙ b.0.2),
    Backed-update streams q t items same b.1,
  )
  | no n ↦ (
    (b.0.0, update_ne streams q (some t) p n ∙ b.0.1, b.0.2),
    Backed-update streams q t items same b.1,
  )
]

pub Backed-snoc :
    (streams : ℕ → Option Stream) (k p : ℕ) (s : Stream) (items : List Item)
    → Backed streams items
    → streams p ≡ some s
    → s.id ≡ k
    → Backed streams (items ++ (k, p) ∷ [])
Backed-snoc streams k p s [] b e i = ((s, e, i), tt)
Backed-snoc streams k p s (item ∷ items) b e i = (b.0, Backed-snoc streams k p s items b.1 e i)

lookup-snoc :
    (j k p : ℕ) (items : List Item)
    → lookup j items ≡ none
    → k ≢ j
    → lookup j (items ++ (k, p) ∷ []) ≡ none
lookup-snoc j k p [] e n = ground arith
lookup-snoc j k p ((i, q) ∷ items) e n = ground (arith, lookup-snoc j k p items)

pub Distinct-snoc :
    (k p : ℕ) (items : List Item)
    → Distinct items
    → lookup k items ≡ none
    → Distinct (items ++ (k, p) ∷ [])
Distinct-snoc k p [] d e = (refl, tt)
Distinct-snoc k p ((j, q) ∷ items) d e =
    (lookup-snoc j k p items d.0 (ground arith), Distinct-snoc k p items d.1 (ground arith))

-- Erasing an item.
lookup-erase-none :
    (j p : ℕ) (items : List Item) → lookup j items ≡ none → lookup j (erase p items) ≡ none
lookup-erase-none j p [] e = refl
lookup-erase-none j p ((k, q) ∷ items) e = ground (arith, lookup-erase-none j p items)

pub Distinct-erase : (p : ℕ) (items : List Item) → Distinct items → Distinct (erase p items)
Distinct-erase p [] d = tt
Distinct-erase p ((k, q) ∷ items) d =
    ground (arith, lookup-erase-none k p items d.0, Distinct-erase p items d.1)

pub length-erase :
    (k p : ℕ) (items : List Item)
    → lookup k items ≡ some p
    → length items ≡ suc (length (erase p items))
length-erase k p [] e = cc
length-erase k p ((j, q) ∷ items) e = ground (arith, length-erase k p items)

-- The stream that an item stands for.
pub Backed-lookup :
    (streams : ℕ → Option Stream) (k p : ℕ) (items : List Item)
    → Backed streams items
    → lookup k items ≡ some p
    → (s : Stream) × (streams p ≡ some s) × (s.id ≡ k)
Backed-lookup streams k p [] b e = cc
Backed-lookup streams k p ((j, q) ∷ items) b e = elim (ℕ_discrete j k) [
  | yes i ↦ (b.0.0, ground (arith, b.0.1), b.0.2 ∙ i)
  | no n ↦ Backed-lookup streams k p items b.1 (ground arith)
]

same_id :
    (streams : ℕ → Option Stream) (p q : ℕ) (s t : Stream)
    → streams p ≡ some s
    → streams q ≡ some t
    → p ≡ q
    → s.id ≡ t.id
same_id streams p q s t e f same =
    let both : some s ≡ some t = sym e ∙ ap streams same ∙ f in
    let equal : s ≡ t = cc in ap (λ (x : Stream). x.id) equal

-- A stream whose identifier is not among the keys is not among the items.
pub absent_of_key :
    (streams : ℕ → Option Stream) (p : ℕ) (s : Stream) (items : List Item)
    → Backed streams items
    → streams p ≡ some s
    → lookup s.id items ≡ none
    → All (λ (i : Item). i.1 ≢ p) items
absent_of_key streams p s [] b e absent = tt
absent_of_key streams p s ((j, q) ∷ items) b e absent = (
  λ same. ground (arith, same_id streams p q s b.0.0 e b.0.1 (sym same), b.0.2),
  absent_of_key streams p s items b.1 e (ground arith),
)

-- Items that do not name p stay backed whatever becomes of p.
pub Backed-elsewhere :
    (streams : ℕ → Option Stream) (p : ℕ) (o : Option Stream) (items : List Item)
    → All (λ (i : Item). i.1 ≢ p) items
    → Backed streams items
    → Backed (update streams p o) items
Backed-elsewhere streams p o [] away b = tt
Backed-elsewhere streams p o ((j, q) ∷ items) away b = (
  (b.0.0, update_ne streams p o q (λ e. away.0 (sym e)) ∙ b.0.1, b.0.2),
  Backed-elsewhere streams p o items away.1 b.1,
)

-- Erasing the item of a key, where the table is backed and its keys are distinct.
pub record IsErased (k p : ℕ) (items rest : List Item) : Type 0 where
  pub gone : lookup k rest ≡ none
  pub others : (j : ℕ) → j ≢ k → lookup j rest ≡ lookup j items
  pub away : All (λ (i : Item). i.1 ≢ p) rest

pub erase_hit : (j q p : ℕ) (items : List Item) → q ≡ p → erase p ((j, q) ∷ items) ≡ items
erase_hit j q p items e = ground arith

erase_miss :
    (j q p : ℕ) (items : List Item) → q ≢ p → erase p ((j, q) ∷ items) ≡ (j, q) ∷ erase p items
erase_miss j q p items n = ground arith

pub erase-IsErased :
    (streams : ℕ → Option Stream) (k p : ℕ) (s : Stream) (items : List Item)
    → streams p ≡ some s
    → s.id ≡ k
    → Backed streams items
    → Distinct items
    → lookup k items ≡ some p
    → IsErased k p items (erase p items)
erase-IsErased streams k p s [] e i b d found = cc
erase-IsErased streams k p s ((j, q) ∷ items) e i b d found = elim (ℕ_discrete j k) [
  | yes same ↦
      subst (IsErased k p ((j, q) ∷ items)) (sym (erase_hit j q p items (ground arith))) (record {
        gone = ground (arith, d.0);
        others = λ h n. ground arith;
        away = absent_of_key streams p s items b.1 e (ground (arith, d.0));
      })
  | no differ ↦
      let apart : q ≢ p =
        λ same. differ (sym b.0.2 ∙ same_id streams q p b.0.0 s b.0.1 e same ∙ i) in
      let ih = erase-IsErased streams k p s items e i b.1 d.1 (ground arith) in
      subst (IsErased k p ((j, q) ∷ items)) (sym (erase_miss j q p items apart)) (record {
        gone = ground (arith, ih.gone);
        others = λ h n. ground (arith, ih.others h);
        away = (apart, ih.away);
      })
]

pub Backed-erase :
    (streams : ℕ → Option Stream) (p : ℕ) (items : List Item)
    → Backed streams items
    → Backed streams (erase p items)
Backed-erase streams p [] b = tt
Backed-erase streams p ((j, q) ∷ items) b = elim (ℕ_discrete q p) [
  | yes e ↦ rw (erase_hit j q p items e) b.1
  | no n ↦ rw (erase_miss j q p items n) (b.0, Backed-erase streams p items b.1)
]
