-- ===== src/Domain/Costs/Order.antt =====
-- internal/domain/channel_strategy.go: SortChannelsByCost sorts.
use mathlib.Core.List.Perm
use startlink.Base.{
  ℕ, zero, suc, ◌≤◌, true, false, List, [], ◌∷◌, map, leb, length, All, ◌≡◌, refl, ap, arith, Perm,
  Bool-cases, inl, inr,
}
use startlink.Domain.Channel.{ChannelType}
use startlink.Domain.Costs.{Item, better, pick, select, items_from, cost_of, sort_channels_by_cost}

-- `a` need not stand after `b`.
abbrev NotAfter : Item → Item → Type 0
NotAfter a b = better b a ≡ false

NotAfter-trans : (a b c : Item) → NotAfter a b → NotAfter b c → NotAfter a c
unfolding better
NotAfter-trans a b c p q = ground arith

NotAfter-better : (a b : Item) → better a b ≡ true → NotAfter a b
unfolding better
NotAfter-better a b h = ground arith

NotAfter-refl : (a : Item) → NotAfter a a
unfolding better
NotAfter-refl a = ground arith

pick-better :
    (best x : Item) (xs : List Item)
    → better x best ≡ true
    → pick best (x ∷ xs) ≡ ((pick x xs).0, best ∷ (pick x xs).1)
unfolding pick
pick-better best x xs e = rw e

pick-not_better :
    (best x : Item) (xs : List Item)
    → better x best ≡ false
    → pick best (x ∷ xs) ≡ ((pick best xs).0, x ∷ (pick best xs).1)
unfolding pick
pick-not_better best x xs e = rw e

-- The picked item need stand after none.
abbrev IsBest : Item × List Item → Item → Type 0
IsBest r best = NotAfter r.0 best × All (NotAfter r.0) r.1

pick-IsBest : (best : Item) (xs : List Item) → IsBest (pick best xs) best
pick-IsBest best [] = unfold pick in (NotAfter-refl best, tt)
pick-IsBest best (x ∷ xs) = elim (Bool-cases (better x best)) [
  | inl e ↦
      let ih = pick-IsBest x xs in
      let far = NotAfter-trans (pick x xs).0 x best ih.0 (NotAfter-better x best e) in
      rw (pick-better best x xs e) (far, (far, ih.1))
  | inr e ↦
      let ih = pick-IsBest best xs in
      rw (pick-not_better best x xs e) (ih.0, (NotAfter-trans (pick best xs).0 best x ih.0 e, ih.1))
]

pick-perm : (best : Item) (xs : List Item) → Perm ((pick best xs).0 ∷ (pick best xs).1) (best ∷ xs)
unfolding pick
pick-perm best [] = Perm.refl (best ∷ [])
pick-perm best (x ∷ xs) = elim (Bool-cases (better x best)) [
  | inl e ↦ rw e (Perm.trans (Perm.swap _ _ _) (Perm.cons best (pick-perm x xs)))
  | inr e ↦ rw e (
      Perm.trans (Perm.swap _ _ _) (Perm.trans (Perm.cons x (pick-perm best xs)) (Perm.swap _ _ _)))
]

length-pick : (best : Item) (xs : List Item) → length (pick best xs).1 ≡ length xs
unfolding pick
length-pick best [] = refl
length-pick best (x ∷ xs) = elim (Bool-cases (better x best)) [
  | inl e ↦ rw e (ap suc (length-pick x xs))
  | inr e ↦ rw e (ap suc (length-pick best xs))
]

select-perm : (n : ℕ) (items : List Item) → length items ≤ n → Perm (select n items) items
unfolding select
select-perm zero [] h = Perm.refl []
select-perm zero (x ∷ xs) h = absurd (omega arith)
select-perm (suc n) [] h = Perm.refl []
select-perm (suc n) (x ∷ xs) h =
    Perm.trans
      (Perm.cons (pick x xs).0 (select-perm n (pick x xs).1 (omega (arith, length-pick x xs))))
      (pick-perm x xs)

pick-All {κ} :
    (P : Item → Type κ) (best : Item) (xs : List Item)
    → P best
    → All P xs
    → P (pick best xs).0 × All P (pick best xs).1
pick-All P best [] h hs = unfold pick in (h, tt)
pick-All P best (x ∷ xs) h hs = elim (Bool-cases (better x best)) [
  | inl e ↦ let ih = pick-All P x xs hs.0 hs.1 in rw (pick-better best x xs e) (ih.0, (h, ih.1))
  | inr e ↦
      let ih = pick-All P best xs h hs.1 in rw (pick-not_better best x xs e) (ih.0, (hs.0, ih.1))
]

select-All {κ} :
    (P : Item → Type κ) (n : ℕ) (items : List Item) → All P items → All P (select n items)
unfolding select
select-All P zero items h = tt
select-All P (suc n) [] h = tt
select-All P (suc n) (x ∷ xs) h =
    let parts = pick-All P x xs h.0 h.1 in (parts.0, select-All P n (pick x xs).1 parts.1)

-- Each item need stand after none of those that follow.
abbrev InOrder : List Item → Type 0
InOrder [] = Unit
InOrder (x ∷ xs) = All (NotAfter x) xs × InOrder xs

select-InOrder : (n : ℕ) (items : List Item) → InOrder (select n items)
unfolding select
select-InOrder zero items = tt
select-InOrder (suc n) [] = tt
select-InOrder (suc n) (x ∷ xs) = (
  select-All (NotAfter (pick x xs).0) n (pick x xs).1 (pick-IsBest x xs).1,
  select-InOrder n (pick x xs).1,
)

-- The cost never falls along the chain.
abbrev pub IsAscending : List (ChannelType × ℕ) → List ChannelType → Type 0
IsAscending costs [] = Unit
IsAscending costs (c ∷ cs) = All (λ d. cost_of costs c ≤ cost_of costs d) cs × IsAscending costs cs

abbrev HasCost : List (ChannelType × ℕ) → Item → Type 0
HasCost costs item = item.cost ≡ cost_of costs item.ch

items_from-HasCost :
    (i : ℕ) (costs : List (ChannelType × ℕ)) (chs : List ChannelType)
    → All (HasCost costs) (items_from i costs chs)
unfolding items_from
items_from-HasCost i costs [] = tt
items_from-HasCost i costs (c ∷ chs) = (refl, items_from-HasCost (suc i) costs chs)

items_from-channels :
    (i : ℕ) (costs : List (ChannelType × ℕ)) (chs : List ChannelType)
    → map (λ item. item.ch) (items_from i costs chs) ≡ chs
unfolding items_from
items_from-channels i costs [] = refl
items_from-channels i costs (c ∷ chs) = ap (◌∷◌ c) (items_from-channels (suc i) costs chs)

length-items_from :
    (i : ℕ) (costs : List (ChannelType × ℕ)) (chs : List ChannelType)
    → length (items_from i costs chs) ≡ length chs
unfolding items_from
length-items_from i costs [] = refl
length-items_from i costs (c ∷ chs) = ap suc (length-items_from (suc i) costs chs)

cheaper :
    (costs : List (ChannelType × ℕ)) (x : Item) (xs : List Item)
    → HasCost costs x
    → All (HasCost costs) xs
    → All (NotAfter x) xs
    → All (λ d. cost_of costs x.ch ≤ cost_of costs d) (map (λ item. item.ch) xs)
unfolding better
cheaper costs x [] h hs ns = tt
cheaper costs x (y ∷ ys) h hs ns = (ground arith, cheaper costs x ys h hs.1 ns.1)

InOrder-IsAscending :
    (costs : List (ChannelType × ℕ)) (items : List Item)
    → All (HasCost costs) items
    → InOrder items
    → IsAscending costs (map (λ item. item.ch) items)
InOrder-IsAscending costs [] h o = tt
InOrder-IsAscending costs (x ∷ xs) h o =
    (cheaper costs x xs h.0 h.1 o.0, InOrder-IsAscending costs xs h.1 o.1)

-- The chain that cost priority sends over holds the channels of the campaign, each as often as
-- there, and goes from the cheapest to the dearest.
pub sort_channels_by_cost-sorts :
    (chs : List ChannelType) (costs : List (ChannelType × ℕ))
    → Perm (sort_channels_by_cost chs costs) chs
      × IsAscending costs (sort_channels_by_cost chs costs)
unfolding sort_channels_by_cost
sort_channels_by_cost-sorts chs costs = elim (Bool-cases (leb (length chs) 1)) [
  | inl short ↦ rw short (Perm.refl chs, short_ascending chs short)
  | inr long ↦ rw long (
    perm_of (items_from-channels 0 costs chs) (
        Perm.map (λ item. item.ch)
          (select-perm (length chs) (items_from 0 costs chs)
            (omega (arith, length-items_from 0 costs chs)))),
    InOrder-IsAscending costs (select (length chs) (items_from 0 costs chs))
        (select-All (HasCost costs) (length chs) (items_from 0 costs chs)
          (items_from-HasCost 0 costs chs))
        (select-InOrder (length chs) (items_from 0 costs chs)),
  )
]
  where
    short_ascending : (cs : List ChannelType) → leb (length cs) 1 ≡ true → IsAscending costs cs
    short_ascending [] h = tt
    short_ascending (c ∷ []) h = (tt, tt)
    short_ascending (c ∷ d ∷ cs) h = absurd (ground arith)

    perm_of : {a b c : List ChannelType} → b ≡ c → Perm a b → Perm a c
    perm_of e p = rw e at p
