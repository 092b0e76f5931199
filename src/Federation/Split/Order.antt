-- ===== src/Federation/Split/Order.antt =====
-- The split of a queue under other orders of the slots.
use mathlib.Core.List.{Permᴰ}
use selfhosted_runner_swarm.Prelude.{
  ℕ, zero, suc, ◌≡◌, ◌≢◌, refl, sym, ap, subst, ◌∙◌, List, [], ◌∷◌, map, All, Distinct, arith,
}
use selfhosted_runner_swarm.Prelude.Text.{Text}
use selfhosted_runner_swarm.Prelude.Dict.{Dict, text_key}
use selfhosted_runner_swarm.Prelude.Sort.{
  sorted, insert, text_leb_total, text_leb_antisymm, text_leb_trans,
}
use selfhosted_runner_swarm.Federation.Split.{
  Slot, by_name, share_in, open_slots, best_of, deal, split,
}
use selfhosted_runner_swarm.Federation.Split.Step.{one_more}
use selfhosted_runner_swarm.Federation.Split.Total.{
  share_in-given, deal-none, deal-some, given, share_in-zeros,
}

insert-insert :
    (x y : Slot) (zs : List Slot)
    → x.name ≢ y.name
    → insert by_name x (insert by_name y zs) ≡ insert by_name y (insert by_name x zs)
unfolding insert by_name
insert-insert x y [] differ =
    ground (arith, text_leb_total x.name y.name, text_leb_antisymm x.name y.name)
insert-insert x y (z ∷ zs) differ = ground (
  arith,
  text_leb_total x.name y.name,
  text_leb_antisymm x.name y.name,
  text_leb_trans x.name y.name z.name,
  text_leb_trans y.name x.name z.name,
  insert-insert x y zs,
)

deal-share :
    (queued : ℕ) (slots : List Slot) (d e : Dict Text ℕ)
    → share_in d ≡ share_in e
    → share_in (deal queued slots d) ≡ share_in (deal queued slots e)
unfolding deal
deal-share zero slots d e same = same
deal-share (suc queued) slots d e same =
    by_open (λ s rest d' e'. deal-share queued (s ∷ rest) d' e') (open_slots (share_in d) slots)
      refl
  where
    by_open :
        ((s : Slot) (rest : List Slot) (d' e' : Dict Text ℕ)
          → share_in d' ≡ share_in e'
          → share_in (deal queued (s ∷ rest) d') ≡ share_in (deal queued (s ∷ rest) e'))
        → (o : List Slot) → open_slots (share_in d) slots ≡ o
        → share_in (deal (suc queued) slots d) ≡ share_in (deal (suc queued) slots e)
    by_open ih [] f =
        let g = ap (λ share. open_slots share slots) (sym same) ∙ f in
        ap share_in (deal-none queued slots d f)
        ∙ (same ∙ sym (ap share_in (deal-none queued slots e g)))
    by_open ih (s ∷ rest) f =
        let g = ap (λ share. open_slots share slots) (sym same) ∙ f in
        ap share_in (deal-some queued slots d s rest f)
        ∙ (ih s rest (given d s rest) (given e s rest) (
              share_in-given (best_of (share_in d) s rest) d
              ∙ (ap (λ share. one_more (best_of share s rest).name share) same
                  ∙ sym (share_in-given (best_of (share_in e) s rest) e)))
            ∙ sym (ap share_in (deal-some queued slots e s rest g)))

All-Perm : (P : Slot → Type 0) {xs ys : List Slot} → Permᴰ xs ys → All P xs → All P ys
All-Perm P Permᴰ.nil h = tt
All-Perm P (Permᴰ.cons e p) h = (subst P e h.0, All-Perm P p h.1)
All-Perm P (Permᴰ.swap e f) h = (subst P f h.1.0, (subst P e h.0, h.1.1))
All-Perm P (Permᴰ.trans p q) h = All-Perm P q (All-Perm P p h)

Distinct-Perm :
    {xs ys : List Slot} → Permᴰ xs ys → Distinct (λ s. s.name) xs → Distinct (λ s. s.name) ys
Distinct-Perm Permᴰ.nil d = tt
Distinct-Perm (Permᴰ.cons {l₂ = l} e p) d = (
  subst (λ x. All (λ s. x.name ≢ s.name) l) e (All-Perm (λ s. _ ≢ s.name) p d.0),
  Distinct-Perm p d.1,
)
Distinct-Perm (Permᴰ.swap {l = l} e f) d = (
  (
    λ q. d.0.0 (ap (λ s. s.name) e ∙ (sym q ∙ sym (ap (λ s. s.name) f))),
    subst (λ x. All (λ s. x.name ≢ s.name) l) f d.1.0,
  ),
  (subst (λ x. All (λ s. x.name ≢ s.name) l) e d.0.1, d.1.1),
)
Distinct-Perm (Permᴰ.trans p q) d = Distinct-Perm q (Distinct-Perm p d)

sorted-Perm :
    {xs ys : List Slot}
    → Permᴰ xs ys
    → Distinct (λ s. s.name) xs
    → sorted by_name xs ≡ sorted by_name ys
unfolding sorted
sorted-Perm Permᴰ.nil d = refl
sorted-Perm (Permᴰ.cons e p) d = λ i. insert by_name (e i) (sorted-Perm p d.1 i)
sorted-Perm (Permᴰ.swap {a = a} {b = b} {l = l} e f) d =
    insert-insert a b (sorted by_name l) d.0.0
    ∙ (λ i. insert by_name (f i) (insert by_name (e i) (sorted by_name l)))
sorted-Perm (Permᴰ.trans p q) d = sorted-Perm p d ∙ sorted-Perm q (Distinct-Perm p d)

-- Two hosts that hold the same slots, in whatever order, each slot with a name of its own, compute
-- the same share for every host.
pub split_same :
    (queued : ℕ) (slots slots' : List Slot)
    → Distinct (λ s. s.name) slots
    → Permᴰ slots slots'
    → (name : Text) → share_in (split queued slots) name ≡ share_in (split queued slots') name
unfolding split
split_same queued slots slots' distinct perm name =
    ap (λ share. share name)
      (deal-share queued (sorted by_name slots) (map (λ s. (s.name, zero)) slots)
          (map (λ s. (s.name, zero)) slots')
          (λ i n. (share_in-zeros slots n ∙ sym (share_in-zeros slots' n)) i)
        ∙ ap
            (λ sorted_slots. share_in (deal queued sorted_slots (map (λ s. (s.name, zero)) slots')))
            (sorted-Perm perm distinct))
